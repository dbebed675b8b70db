-- ===== src/CrossEntity/Detection/Pendings.antt =====
-- The pending rows of the detection pass (domain/cross_entity/detection.py).
use lemon_ledger.Prelude.{
  ℕ, ◌+◌, ◌≤◌, ◌==◌, ◌≡◌, refl, sym, ap, ◌∙◌, arith, if◌then◌else◌, is_some, Bool-cases,
  Option-cases, true, false, ◌&&◌, Option, none, List, [], ◌∷◌, ◌++◌, find, filter, length, sum_of,
  sum_of-append, inl, inr, ok, err, Result,
}
use lemon_ledger.Models.{
  Session, ClassifiedTransaction, Wallet, WalletEntityAssignment, PendingClassification,
  TransferKey, set_event, external_outflow,
}
use lemon_ledger.CrossEntity.Detection.{
  Detected, DetectionError, Counterparty, same_key, key_of, new_pending, insert_pending,
  write_pending_if_absent, own_transfer, own_branch, external_branch, detect_one, detect_loop,
  detect_wallets, detect_for_user, resolve_entity_at, find_own_inflow, raw_to_address,
  is_own_address,
}

-- How many rows the table has under a key.
abbrev pub rows_with : TransferKey → List PendingClassification → ℕ
rows_with k rows = sum_of (λ p. if same_key p.logical_transfer_key k then 1 else 0) rows

-- `uq_pending_classifications_ltk`: a key stands in one row at most.
abbrev pub IsUnique : List PendingClassification → Type 0
IsUnique rows = (k : TransferKey) → rows_with k rows ≤ 1

-- What the pass did since the state `old`: rows were only added, as many as it counts, and no key
-- stands in two rows.
pub record Adds (old now : Detected) : Type 0 where
  pub added : List PendingClassification
  pub rows : now.session.pendings ≡ old.session.pendings ++ added
  pub counted : now.pending_created ≡ old.pending_created + length added
  pub unique : IsUnique now.session.pendings

same : (d : Detected) → IsUnique d.session.pendings → Adds d d
same d h = record {
  added = [];
  rows = sym (++_nil d.session.pendings);
  counted = omega arith;
  unique = h;
}
  where
    ++_nil : (xs : List PendingClassification) → xs ++ [] ≡ xs
    ++_nil [] = refl
    ++_nil (x ∷ xs) = ap (λ r. x ∷ r) (++_nil xs)

length-append : (xs ys : List PendingClassification) → length (xs ++ ys) ≡ length xs + length ys
length-append [] ys = omega arith
length-append (x ∷ xs) ys = omega (arith, length-append xs ys)

assoc : (xs ys zs : List PendingClassification) → (xs ++ ys) ++ zs ≡ xs ++ (ys ++ zs)
assoc [] ys zs = refl
assoc (x ∷ xs) ys zs = ap (λ r. x ∷ r) (assoc xs ys zs)

and_then : {a b c : Detected} → Adds a b → Adds b c → Adds a c
and_then {a} {b} {c} p q = record {
  added = p.added ++ q.added;
  rows = q.rows ∙ ap (λ r. r ++ q.added) p.rows ∙ assoc a.session.pendings p.added q.added;
  counted = omega (arith, p.counted, q.counted, length-append p.added q.added);
  unique = q.unique;
}

-- Keys that are both the same as a third are the same.
same_key-with :
    (a b k : TransferKey) → same_key a b ≡ false → same_key b k ≡ true → same_key a k ≡ false
same_key-with a b k h e = ground arith

none_with :
    (rows : List PendingClassification) (b k : TransferKey)
    → is_some (find (λ p. same_key p.logical_transfer_key b) rows) ≡ false
    → same_key b k ≡ true
    → rows_with k rows ≡ 0
none_with [] b k absent e = refl
none_with (p ∷ rows) b k absent e = elim (Bool-cases (same_key p.logical_transfer_key b)) [
  | inl fit ↦ ground (arith, rw fit at absent)
  | inr unfit ↦
      rw (same_key-with p.logical_transfer_key b k unfit e)
        (omega (arith, none_with rows b k (rw unfit at absent) e))
]

insert-Adds :
    (pc : PendingClassification) (d : Detected)
    → IsUnique d.session.pendings
    → is_some
        (find (λ p. same_key p.logical_transfer_key pc.logical_transfer_key) d.session.pendings)
      ≡ false
    → Adds d (insert_pending pc d)
insert-Adds pc d unique absent = record {
  added = pc ∷ [];
  rows = refl;
  counted = omega arith;
  unique = λ k. elim (Bool-cases (same_key pc.logical_transfer_key k)) [
    | inl fit ↦ new k fit
    | inr unfit ↦ other k unfit
  ];
}
  where
    at : TransferKey → PendingClassification → ℕ
    at k p = if same_key p.logical_transfer_key k then 1 else 0

    one :
        (k : TransferKey) → same_key pc.logical_transfer_key k ≡ true → sum_of (at k) (pc ∷ []) ≡ 1
    one k fit = rw fit (omega arith)

    zero_more :
        (k : TransferKey) → same_key pc.logical_transfer_key k ≡ false → sum_of (at k) (pc ∷ []) ≡ 0
    zero_more k unfit = rw unfit (omega arith)

    new :
        (k : TransferKey)
        → same_key pc.logical_transfer_key k ≡ true
        → rows_with k (d.session.pendings ++ (pc ∷ [])) ≤ 1
    new k fit = omega (
      arith,
      sum_of-append (at k) d.session.pendings (pc ∷ []),
      one k fit,
      none_with d.session.pendings pc.logical_transfer_key k absent fit,
    )

    other :
        (k : TransferKey)
        → same_key pc.logical_transfer_key k ≡ false
        → rows_with k (d.session.pendings ++ (pc ∷ [])) ≤ 1
    other k unfit =
        omega
          (arith, sum_of-append (at k) d.session.pendings (pc ∷ []), zero_more k unfit, unique k)

module _ (user_id : ℕ) where
  write_pending-Adds :
      (ct : ClassifiedTransaction) (entity_id : ℕ) (party : Counterparty) (d : Detected)
      → IsUnique d.session.pendings
      → Adds d (write_pending_if_absent user_id ct entity_id party d)
  unfolding write_pending_if_absent
  write_pending-Adds ct entity_id party d unique =
      elim (Bool-cases
        (is_some (find (λ p. same_key p.logical_transfer_key (key_of ct)) d.session.pendings))) [
          | inl present ↦ rw (write_pending_if_absent, present) (same d unique)
          | inr absent ↦ elim (Option-cases ct.token_id) [
            | inl no_token ↦ rw (write_pending_if_absent, absent, no_token) (same d unique)
            | inr (token_id, token) ↦
                rw (write_pending_if_absent, absent, token)
                  (insert-Adds (new_pending d.session user_id ct token_id entity_id party) d unique
                    absent)
          ]
        ]

  own_transfer-Adds :
      (ct inf : ClassifiedTransaction) (from_id to_id : ℕ) (d : Detected)
      → IsUnique d.session.pendings
      → Adds d (own_transfer user_id ct inf from_id to_id d)
  unfolding own_transfer set_event
  own_transfer-Adds ct inf from_id to_id d unique = elim (Bool-cases (from_id == to_id)) [
    | inl one ↦
        let s = same d unique in
        rw (own_transfer, one)
          (record { added = s.added; rows = s.rows; counted = s.counted; unique = unique })
    | inr two ↦ rw (own_transfer, two) (write_pending-Adds ct from_id _ d unique)
  ]

  own_branch-Adds :
      (ct inf : ClassifiedTransaction) (d : Detected)
      → IsUnique d.session.pendings
      → Adds d (own_branch user_id ct inf d)
  unfolding own_branch
  own_branch-Adds ct inf d unique =
      go (resolve_entity_at d.session ct.wallet_id ct.occurred_at)
        (resolve_entity_at d.session inf.wallet_id ct.occurred_at)
    where
      go :
          (from_asgn to_asgn : Result DetectionError WalletEntityAssignment)
          → Adds d (elim from_asgn [
            | err raised ↦ d
            | ok f ↦ elim to_asgn [
              | err raised ↦ d
              | ok t ↦ own_transfer user_id ct inf f.entity_id t.entity_id d
            ]
          ])
      go (err raised) to_asgn = same d unique
      go (ok f) (err raised) = same d unique
      go (ok f) (ok t) = own_transfer-Adds ct inf f.entity_id t.entity_id d unique

  external_branch-Adds :
      (own : List ℕ) (ct : ClassifiedTransaction) (d : Detected)
      → IsUnique d.session.pendings
      → Adds d (external_branch user_id own ct d)
  unfolding external_branch
  external_branch-Adds own ct d unique =
      elim (Bool-cases (is_own_address own (raw_to_address d.session ct))) [
        | inl ours ↦ rw (external_branch, ours) (same d unique)
        | inr theirs ↦
            rw (external_branch, theirs)
              (go (resolve_entity_at d.session ct.wallet_id ct.occurred_at))
      ]
    where
      go :
          (asgn : Result DetectionError WalletEntityAssignment)
          → Adds d (elim asgn [
            | err raised ↦ d
            | ok f ↦
                write_pending_if_absent user_id ct f.entity_id
                  (record {
                    kind = external_outflow;
                    to_wallet_id = none;
                    to_entity_id = none;
                    to_address = raw_to_address d.session ct;
                  })
                  d
          ])
      go (err raised) = same d unique
      go (ok f) = write_pending-Adds ct f.entity_id _ d unique

  detect_one-Adds :
      (wallet_ids own : List ℕ) (ct : ClassifiedTransaction) (d : Detected)
      → IsUnique d.session.pendings
      → Adds d (detect_one user_id wallet_ids own ct d)
  unfolding detect_one
  detect_one-Adds wallet_ids own ct d unique =
      elim (Option-cases (find_own_inflow d.session ct wallet_ids)) [
        | inl outside ↦ rw (detect_one, outside) (external_branch-Adds own ct d unique)
        | inr (inf, found) ↦ rw (detect_one, found) (own_branch-Adds ct inf d unique)
      ]

  detect_loop-Adds :
      (wallet_ids own : List ℕ) (cts : List ClassifiedTransaction) (d : Detected)
      → IsUnique d.session.pendings
      → Adds d (detect_loop user_id wallet_ids own cts d)
  unfolding detect_loop
  detect_loop-Adds wallet_ids own [] d unique = same d unique
  detect_loop-Adds wallet_ids own (ct ∷ cts) d unique =
      let first = detect_one-Adds wallet_ids own ct d unique in
      and_then first (detect_loop-Adds wallet_ids own cts _ first.unique)

-- The detection pass only adds pending rows: those that were there, resolved or not, stay as they
-- are and where they are, `pending_created` is the number of new rows, and no two rows get the
-- same logical transfer key, given that none had before.
pub detect_for_user-Adds :
    (s : Session) (user_id : ℕ) (since : Option ℕ)
    → IsUnique s.pendings
    → Adds
        (record { session = s; auto_resolved = 0; pending_created = 0 })
        (detect_for_user s user_id since)
unfolding detect_for_user detect_wallets
detect_for_user-Adds s user_id since unique =
    go (filter (λ w. w.user_id == user_id && w.is_active) s.wallets)
  where
    start : Detected
    start = record { session = s; auto_resolved = 0; pending_created = 0 }

    go : (ws : List Wallet) → Adds start (detect_wallets s user_id since ws)
    go [] = same start unique
    go (w ∷ ws) = detect_loop-Adds user_id _ _ _ start unique
