-- ===== src/Forms/Gate/Clear.antt =====
-- What a gate that is not held says of the ledger (domain/forms/gate.py).
use lemon_ledger.Prelude.{
  ℕ, ◌≡◌, refl, sym, ap, subst, get_or, ◌∙◌, arith, Bool, Bool-cases, Option-cases, true, false,
  ◌&&◌, Option, none, some, List, [], ◌∷◌, ◌++◌, map, filter, All, if◌then◌else◌, inl, inr, sorted,
  insert,
}
use lemon_ledger.Models.{
  Session, ClassifiedTransaction, LotProcessingException, BridgeCorrelation, PendingClassification,
  get_event,
}
use lemon_ledger.Forms.Gate.{
  GateRow, is_held_event, event_rows, exception_rows, confirmation_rows, transfer_rows, v_lot_gate,
  get_entity_wallet_ids, is_one_of, is_by, blocks, blocker_rows, check_gate, is_filled, earlier,
  awaits_confirmation, awaits_classification, is_leg_of, aged_rows, row_at, event_of,
  transfer_needs_classification, GateResult,
}

insert-is_filled : (x : GateRow) (xs : List GateRow) → is_filled (insert earlier x xs) ≡ true
unfolding insert
insert-is_filled x [] = refl
insert-is_filled x (y ∷ ys) = go (earlier y x)
  where
    go : (b : Bool) → is_filled (if b then y ∷ insert earlier x ys else x ∷ y ∷ ys) ≡ true
    go true = refl
    go false = refl

sorted-empty : (xs : List GateRow) → is_filled (sorted earlier xs) ≡ false → is_filled xs ≡ false
unfolding sorted
sorted-empty [] h = refl
sorted-empty (x ∷ xs) h = ground (arith, sym (insert-is_filled x (sorted earlier xs)) ∙ h)

filter-empty :
    (p : GateRow → Bool) (xs : List GateRow)
    → is_filled (filter p xs) ≡ false
    → All (λ x. p x ≡ false) xs
filter-empty p [] h = tt
filter-empty p (x ∷ xs) h = elim (Bool-cases (p x)) [
  | inl fit ↦ ground (arith, rw fit at h)
  | inr unfit ↦ (unfit, filter-empty p xs (rw unfit at h))
]

All-split : (P : GateRow → Type 0) (xs ys : List GateRow) → All P (xs ++ ys) → All P xs × All P ys
All-split P [] ys h = (tt, h)
All-split P (x ∷ xs) ys (h, hs) = let (left, right) = All-split P xs ys hs in ((h, left), right)

module _ (s : Session) (wallet_ids : List ℕ) (tax_year : ℕ) where
  -- An event of the wallet at the moment is none of these wallets and years.
  abbrev pub Outside : ℕ → ℕ → Type 0
  Outside wallet_id moment =
      (is_one_of wallet_ids (some wallet_id) && is_by s tax_year (some moment)) ≡ false

  abbrev Passes : List GateRow → Type 0
  Passes rows = All (λ r. blocks s wallet_ids tax_year r ≡ false) rows

  -- What no row of the view blocks, by its sources (a), (b), (c) and (e).
  pub record IsClear : Type 0 where
    pub events : All (λ ct. is_held_event ct ≡ true → Outside ct.wallet_id ct.occurred_at) s.events
    pub exceptions :
        All
          (λ x.
            (ct : ClassifiedTransaction)
            → get_event s x.classified_tx_id ≡ some ct
            → Outside ct.wallet_id ct.occurred_at)
          s.exceptions
    pub pairs :
        All
          (λ bc.
            (k : ℕ) (ct : ClassifiedTransaction)
            → awaits_confirmation bc.status ≡ true
            → bc.outflow_classified_event_id ≡ some k
            → get_event s k ≡ some ct
            → Outside ct.wallet_id ct.occurred_at)
          s.correlations
    pub transfers :
        All
          (λ pc.
            awaits_classification pc.state ≡ true
            → All (λ ct. is_leg_of pc ct ≡ true → Outside ct.wallet_id pc.detected_at) s.events)
          s.pendings

  same_event :
      (event ct : ClassifiedTransaction)
      → some event ≡ some ct
      → Outside event.wallet_id event.occurred_at
      → Outside ct.wallet_id ct.occurred_at
  same_event event ct e h =
      subst (λ x. Outside x.wallet_id x.occurred_at) (ap (λ o. get_or o event) e) h

  clear_events :
      (events : List ClassifiedTransaction)
      → Passes (event_rows events)
      → All (λ ct. is_held_event ct ≡ true → Outside ct.wallet_id ct.occurred_at) events
  unfolding event_rows blocks
  clear_events [] h = tt
  clear_events (ct ∷ events) h = elim (Bool-cases (is_held_event ct)) [
    | inl held ↦ ((λ _. (rw held at h).0), clear_events events (rw held at h).1)
    | inr free ↦ ((λ held. ground (arith, held, free)), clear_events events (rw free at h))
  ]

  clear_exceptions :
      (xs : List LotProcessingException)
      → Passes (exception_rows s xs)
      → All
          (λ x.
            (ct : ClassifiedTransaction)
            → get_event s x.classified_tx_id ≡ some ct
            → Outside ct.wallet_id ct.occurred_at)
          xs
  unfolding exception_rows blocks
  clear_exceptions [] h = tt
  clear_exceptions (x ∷ xs) h = elim (Option-cases (get_event s x.classified_tx_id)) [
    | inl absent ↦ (
      (λ ct found. ground (arith, sym absent ∙ found)),
      clear_exceptions xs (rw (exception_rows, absent) at h),
    )
    | inr (event, here) ↦
        let rows = rw (exception_rows, here) at h in
        ((λ ct found. same_event event ct (sym here ∙ found) rows.0), clear_exceptions xs rows.1)
  ]

  clear_pairs :
      (bcs : List BridgeCorrelation)
      → Passes (confirmation_rows s bcs)
      → All
          (λ bc.
            (k : ℕ) (ct : ClassifiedTransaction)
            → awaits_confirmation bc.status ≡ true
            → bc.outflow_classified_event_id ≡ some k
            → get_event s k ≡ some ct
            → Outside ct.wallet_id ct.occurred_at)
          bcs
  unfolding confirmation_rows blocks
  clear_pairs [] h = tt
  clear_pairs (bc ∷ bcs) h = elim (Bool-cases (awaits_confirmation bc.status)) [
    | inr decided ↦ (
      (λ k ct awaits. ground (arith, awaits, decided)),
      clear_pairs bcs (rw (confirmation_rows, decided) at h),
    )
    | inl awaits ↦ elim (Option-cases (event_of s bc.outflow_classified_event_id)) [
      | inl absent ↦ (
        (λ k ct _ leg found. ground (arith, sym absent ∙ ap (event_of s) leg ∙ found)),
        clear_pairs bcs (rw (confirmation_rows, awaits, absent) at h),
      )
      | inr (event, here) ↦
          let rows = rw (confirmation_rows, awaits, here) at h in
          (
            (λ k ct _ leg found.
                same_event event ct (sym here ∙ ap (event_of s) leg ∙ found) rows.0),
            clear_pairs bcs rows.1,
          )
    ]
  ]

  clear_legs :
      (pc : PendingClassification) (events : List ClassifiedTransaction)
      → Passes (
          map
            (λ ct. row_at ct transfer_needs_classification pc.detected_at)
            (filter (is_leg_of pc) events))
      → All (λ ct. is_leg_of pc ct ≡ true → Outside ct.wallet_id pc.detected_at) events
  unfolding blocks
  clear_legs pc [] h = tt
  clear_legs pc (ct ∷ events) h = elim (Bool-cases (is_leg_of pc ct)) [
    | inl leg ↦ ((λ _. (rw leg at h).0), clear_legs pc events (rw leg at h).1)
    | inr other ↦ ((λ leg. ground (arith, leg, other)), clear_legs pc events (rw other at h))
  ]

  clear_transfers :
      (pcs : List PendingClassification)
      → Passes (transfer_rows s pcs)
      → All
          (λ pc.
            awaits_classification pc.state ≡ true
            → All (λ ct. is_leg_of pc ct ≡ true → Outside ct.wallet_id pc.detected_at) s.events)
          pcs
  unfolding transfer_rows
  clear_transfers [] h = tt
  clear_transfers (pc ∷ pcs) h = elim (Bool-cases (awaits_classification pc.state)) [
    | inr settled ↦ (
      (λ awaits. ground (arith, awaits, settled)),
      clear_transfers pcs (rw (transfer_rows, settled) at h),
    )
    | inl awaits ↦
        let (legs, rest) =
          All-split (λ r. blocks s wallet_ids tax_year r ≡ false) _ _
            (rw (transfer_rows, awaits) at h) in
        ((λ _. clear_legs pc s.events legs), clear_transfers pcs rest)
  ]

  clear_view : Passes (v_lot_gate s) → IsClear
  unfolding v_lot_gate
  clear_view h =
      let split = All-split (λ r. blocks s wallet_ids tax_year r ≡ false) in
      let (events, h1) = split (event_rows s.events) _ h in
      let (exceptions, h2) = split (exception_rows s s.exceptions) _ h1 in
      let (pairs, h3) = split (confirmation_rows s s.correlations) _ h2 in
      let (aged, transfers) = split (aged_rows s s.correlations) _ h3 in
      record {
        events = clear_events s.events events;
        exceptions = clear_exceptions s.exceptions exceptions;
        pairs = clear_pairs s.correlations pairs;
        transfers = clear_transfers s.pendings transfers;
      }

no_wallets :
    (s : Session) (tax_year : ℕ) (rows : List GateRow)
    → All (λ r. blocks s [] tax_year r ≡ false) rows
unfolding blocks
no_wallets s tax_year [] = tt
no_wallets s tax_year (r ∷ rows) = (go r.wallet_id, no_wallets s tax_year rows)
  where
    go : (w : Option ℕ) → (is_one_of [] w && (r.blocking && is_by s tax_year r.occurred_at)) ≡ false
    go none = refl
    go (some w) = refl

-- Where the gate of an entity and a year is not held, nothing is open for the entity's wallets in
-- the years up to it: no event is pending or flagged for review, no event has an exception, no
-- outflow belongs to a pair that waits for the user, and no transfer that waits for a
-- classification was detected.
pub check_gate-IsClear :
    (s : Session) (entity_id tax_year : ℕ)
    → (check_gate s entity_id tax_year).is_held ≡ false
    → IsClear s (get_entity_wallet_ids s entity_id) tax_year
unfolding check_gate blocker_rows
check_gate-IsClear s entity_id tax_year h = go (get_entity_wallet_ids s entity_id) h
  where
    go :
        (ids : List ℕ)
        → (if◌then◌else◌ {A = GateResult}
            (is_filled ids)
            (record {
              is_held = is_filled (blocker_rows s ids tax_year);
              blocker_rows = blocker_rows s ids tax_year;
              entity_wallet_ids = ids;
            })
            (record { is_held = false; blocker_rows = []; entity_wallet_ids = [] })).is_held
          ≡ false
        → IsClear s ids tax_year
    go [] free = clear_view s [] tax_year (no_wallets s tax_year (v_lot_gate s))
    go (k ∷ ks) free =
        clear_view s (k ∷ ks) tax_year
          (filter-empty (blocks s (k ∷ ks) tax_year) (v_lot_gate s) (sorted-empty _ free))
