-- ===== src/Bridge/Pass/UserRows.antt =====
-- The rows that users resolved, in the pass of domain/bridge/tasks.py.
use lemon_ledger.Prelude.{
  ℕ, ◌+◌, ◌==◌, ==_iff, opt_eq, is_some, if◌then◌else◌, ◌≡◌, refl, sym, ap, ◌∙◌, arith, Bool,
  Bool-cases, true, false, ◌&&◌, not, Option, none, some, List, [], ◌∷◌, ◌++◌, find, find-fits,
  find-All, find-nothing, filter, update, All, All-append, inl, inr,
}
use lemon_ledger.Models.{Session, BridgeCorrelation, BridgeResolvedBy}
use lemon_ledger.Bridge.Legs.{PairHypothesis, LegDirection, outflow}
use lemon_ledger.Bridge.Pairing.{
  is_user, is_user_resolved, existing_singleton, existing_pair, leg_col, other_col, is_unmatched,
}

abbrev pub user_rows : List BridgeCorrelation → List BridgeCorrelation
user_rows cs = filter (λ c. is_user c.resolved_by) cs

module _ (owned : ℕ → Bool) where
  -- The keys of users' rows are the owned ones.
  abbrev pub Apart : List BridgeCorrelation → Type 0
  Apart cs = All (λ c. is_user c.resolved_by ≡ owned c.id) cs

  -- No key that is drawn later is owned.
  abbrev pub Fresh : Session → Type 0
  Fresh s = (n : ℕ) → owned (s.runtime.uuid7 (s.drawn + n)) ≡ false

  -- A row that no user resolved, under a key of such rows.
  abbrev pub Plain : BridgeCorrelation → Type 0
  Plain c = (is_user c.resolved_by ≡ false) × (owned c.id ≡ false)

  -- The table `new` has the users' rows of `old`.
  pub record Keeps (old new : List BridgeCorrelation) : Type 0 where
    pub rows : user_rows new ≡ user_rows old
    pub apart : Apart new

  pub Plain-apart : (c : BridgeCorrelation) → Plain c → is_user c.resolved_by ≡ owned c.id
  Plain-apart c (u, o) = u ∙ sym o

  pub update-Keeps :
      (k : ℕ) (f : BridgeCorrelation → BridgeCorrelation)
      → owned k ≡ false
      → ((c : BridgeCorrelation) → Plain c → Plain (f c))
      → (cs : List BridgeCorrelation) → Apart cs
      → Keeps cs (update (λ c. c.id == k) f cs)
  update-Keeps k f free plain [] h = record { rows = refl; apart = tt }
  update-Keeps k f free plain (c ∷ cs) (h, hs) =
      let rest = update-Keeps k f free plain cs hs in
      elim (Bool-cases (c.id == k)) [
        | inl fit ↦
            let free_c : owned c.id ≡ false = ap owned ((==_iff c.id k).0 fit) ∙ free in
            let now = plain c (h ∙ free_c, free_c) in
            record {
              rows = rw (fit, now.0, h ∙ free_c) rest.rows;
              apart = rw fit (Plain-apart (f c) now, rest.apart);
            }
        | inr unfit ↦ record {
          rows = rw unfit (ap (λ r. if is_user c.resolved_by then c ∷ r else r) rest.rows);
          apart = rw unfit (h, rest.apart);
        }
      ]

  pub delete-Keeps :
      (k : ℕ)
      → owned k ≡ false
      → (cs : List BridgeCorrelation) → Apart cs
      → Keeps cs (filter (λ c. not (c.id == k)) cs)
  delete-Keeps k free [] h = record { rows = refl; apart = tt }
  delete-Keeps k free (c ∷ cs) (h, hs) =
      let rest = delete-Keeps k free cs hs in
      elim (Bool-cases (c.id == k)) [
        | inl fit ↦
            let free_c : owned c.id ≡ false = ap owned ((==_iff c.id k).0 fit) ∙ free in
            record { rows = rw (fit, h ∙ free_c) rest.rows; apart = rw fit rest.apart }
        | inr unfit ↦ record {
          rows = rw unfit (ap (λ r. if is_user c.resolved_by then c ∷ r else r) rest.rows);
          apart = rw unfit (h, rest.apart);
        }
      ]

  append-rows :
      (new : BridgeCorrelation)
      → is_user new.resolved_by ≡ false
      → (cs : List BridgeCorrelation) → user_rows (cs ++ (new ∷ [])) ≡ user_rows cs
  append-rows new plain [] = rw plain refl
  append-rows new plain (c ∷ cs) =
      ap (λ r. if is_user c.resolved_by then c ∷ r else r) (append-rows new plain cs)

  pub append-Keeps :
      (new : BridgeCorrelation)
      → Plain new
      → (cs : List BridgeCorrelation) → Apart cs
      → Keeps cs (cs ++ (new ∷ []))
  append-Keeps new plain cs h = record {
    rows = append-rows new plain.0 cs;
    apart =
        All-append (λ c. is_user c.resolved_by ≡ owned c.id) (new ∷ []) cs
          (Plain-apart new plain, tt) h;
  }

  pub keep : (cs : List BridgeCorrelation) → Apart cs → Keeps cs cs
  keep cs h = record { rows = refl; apart = h }

  pub and_then : {a b c : List BridgeCorrelation} → Keeps a b → Keeps b c → Keeps a c
  and_then p q = record { rows = q.rows ∙ p.rows; apart = q.apart }

  -- A row that a query finds.
  found_Plain :
      (p : BridgeCorrelation → Bool) (cs : List BridgeCorrelation) (c : BridgeCorrelation)
      → Apart cs
      → find p cs ≡ some c
      → is_user c.resolved_by ≡ false
      → Plain c
  found_Plain p cs c h found plain =
      (plain, sym (find-All (λ x. is_user x.resolved_by ≡ owned x.id) p cs c h found) ∙ plain)

  pub singleton_Plain :
      (s : Session) (k : ℕ) (d : LegDirection) (c : BridgeCorrelation)
      → Apart s.correlations
      → existing_singleton s k d ≡ some c
      → Plain c
  unfolding existing_singleton
  singleton_Plain s k d c h found = found_Plain _ s.correlations c h found (
      unresolved (opt_eq (leg_col d c) (some k)) (is_some (other_col d c)) (is_unmatched c.status)
        c.resolved_by (find-fits _ s.correlations c found))
    where
      unresolved :
          (a b e : Bool) (r : Option BridgeResolvedBy)
          → (a && (not b && (e && not (is_some r)))) ≡ true
          → is_user r ≡ false
      unresolved a b e none fits = refl
      unresolved true false true (some r) fits = ground arith
      unresolved true false false (some r) fits = ground arith
      unresolved true true e (some r) fits = ground arith
      unresolved false b e (some r) fits = ground arith

  -- A pair is looked for once neither of its legs is a user's.
  pub pair_Plain :
      (s : Session) (hyp : PairHypothesis) (c : BridgeCorrelation)
      → Apart s.correlations
      → is_user_resolved s hyp.outflow_leg.classified_event_id outflow ≡ false
      → existing_pair s hyp ≡ some c
      → Plain c
  unfolding existing_pair is_user_resolved
  pair_Plain s hyp c h unresolved found = found_Plain _ s.correlations c h found (
      plain (opt_eq c.outflow_classified_event_id (some hyp.outflow_leg.classified_event_id)) _
        (is_user c.resolved_by) (find-fits _ s.correlations c found)
        (find-All _ _ s.correlations c (find-nothing _ s.correlations unresolved) found))
    where
      plain : (a b u : Bool) → (a && b) ≡ true → (a && u) ≡ false → u ≡ false
      plain true b u fits no_user = no_user
      plain false b u fits no_user = ground arith
