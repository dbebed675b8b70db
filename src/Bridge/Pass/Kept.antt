-- ===== src/Bridge/Pass/Kept.antt =====
-- The loops of the pass (domain/bridge/pairing.py and tasks.py) on the rows that users resolved.
use lemon_ledger.Prelude.{
  ℕ, suc, ◌+◌, ◌==◌, ==_iff, if◌then◌else◌, ◌≡◌, refl, ap, subst, ◌∙◌, arith, Bool, Bool-cases,
  Option-cases, true, false, ◌||◌, Option, none, some, List, [], ◌∷◌, ◌++◌, find-fits, All,
  All-append, inl, inr,
}
use lemon_ledger.Models.{Session, BridgeCorrelation, auto}
use lemon_ledger.Bridge.Legs.{
  CandidateLeg, PairHypothesis, LegDirection, outflow, inflow, build_hypotheses,
}
use lemon_ledger.Bridge.Candidates.{find_candidate_legs, default_materiality}
use lemon_ledger.Bridge.Pairing.{
  is_user, is_user_resolved, existing_singleton, existing_pair, write_pair, new_pair, add_inflow,
  add_outflow, Pass, contains, pair_step, leg_step, pair_loop, leg_loop, pair_and_persist,
  new_singleton,
}
use lemon_ledger.Bridge.Workflow.{get_correlation, set_correlation}
use lemon_ledger.Bridge.Workflow.Decisions.{set_classification_signal-Same}
use lemon_ledger.Bridge.Custody.{is_confirmed}
use lemon_ledger.Bridge.Pass.{Scoring, score_one, score_loop, correlate, scorable, scored}
use lemon_ledger.Bridge.Pass.UserRows.{
  user_rows, Apart, Fresh, Plain, Keeps, update-Keeps, append-Keeps, delete-Keeps, keep, and_then,
  singleton_Plain, pair_Plain,
}

module _ (owned : ℕ → Bool) where
  -- The state of the pairing loops against the table `old` from before.
  record Fits (old : List BridgeCorrelation) (pass : Pass) : Type 0 where
    pub kept : Keeps owned old pass.session.correlations
    pub fresh : Fresh owned pass.session
    pub free : All (λ c. owned c.id ≡ false) pass.written

  -- What the writing of one pair gives.
  abbrev Wrote : Session → Session × BridgeCorrelation → Type 0
  Wrote s (x, c) = Keeps owned s.correlations x.correlations × Fresh owned x × (owned c.id ≡ false)

  abbrev PlainIf : Option BridgeCorrelation → Type 0
  PlainIf none = Unit
  PlainIf (some c) = Plain owned c

  later :
      (s : Session) → Fresh owned s → (n : ℕ) → owned (s.runtime.uuid7 (s.drawn + 1 + n)) ≡ false
  later s fresh n = subst (λ k. owned (s.runtime.uuid7 k) ≡ false) (omega arith) (fresh (suc n))

  now : (s : Session) → Fresh owned s → owned (s.runtime.uuid7 s.drawn) ≡ false
  now s fresh = subst (λ k. owned (s.runtime.uuid7 k) ≡ false) (omega arith) (fresh 0)

  write_pair-Wrote :
      (s : Session) (user_id : ℕ) (hyp : PairHypothesis) (out inf : Option BridgeCorrelation)
      → Apart owned s.correlations
      → Fresh owned s
      → PlainIf out
      → PlainIf inf
      → Wrote s (write_pair s user_id hyp out inf)
  unfolding write_pair
  write_pair-Wrote s user_id hyp (some out) (some inf) h fresh plain_out plain_inf =
      let updated =
        update-Keeps owned out.id (add_inflow hyp) plain_out.1 (λ c p. p) s.correlations h in
      (
        and_then owned updated (delete-Keeps owned inf.id plain_inf.1 _ updated.apart),
        fresh,
        plain_out.1,
      )
  write_pair-Wrote s user_id hyp (some out) none h fresh plain_out plain_inf = (
    update-Keeps owned out.id (add_inflow hyp) plain_out.1 (λ c p. p) s.correlations h,
    fresh,
    plain_out.1,
  )
  write_pair-Wrote s user_id hyp none (some inf) h fresh plain_out plain_inf = (
    update-Keeps owned inf.id (add_outflow hyp) plain_inf.1 (λ c p. p) s.correlations h,
    fresh,
    plain_inf.1,
  )
  write_pair-Wrote s user_id hyp none none h fresh plain_out plain_inf = (
    append-Keeps owned (new_pair s user_id hyp) (refl, now s fresh) s.correlations h,
    later s fresh,
    now s fresh,
  )

  singleton_PlainIf :
      (s : Session) (k : ℕ) (d : LegDirection)
      → Apart owned s.correlations
      → PlainIf (existing_singleton s k d)
  singleton_PlainIf s k d h = go (existing_singleton s k d) (singleton_Plain owned s k d)
    where
      go :
          (o : Option BridgeCorrelation)
          → ((c : BridgeCorrelation) → Apart owned s.correlations → o ≡ some c → Plain owned c)
          → PlainIf o
      go none plain = tt
      go (some c) plain = plain c h refl

  add_written :
      (pass : Pass) (c : BridgeCorrelation)
      → All (λ x. owned x.id ≡ false) pass.written
      → owned c.id ≡ false
      → All (λ x. owned x.id ≡ false) (pass.written ++ (c ∷ []))
  add_written pass c h free =
      All-append (λ x. owned x.id ≡ false) (c ∷ []) pass.written (free, tt) h

  wrote :
      (old : List BridgeCorrelation) (user_id : ℕ) (hyp : PairHypothesis) (pass : Pass)
      → Fits old pass
      → Fits old (
          let s = pass.session in
          let (s', c) =
            write_pair s user_id hyp
              (existing_singleton s hyp.outflow_leg.classified_event_id outflow)
              (existing_singleton s hyp.inflow_leg.classified_event_id inflow) in
          record {
            session = s';
            used =
                hyp.inflow_leg.classified_event_id ∷ hyp.outflow_leg.classified_event_id
                ∷ pass.used;
            written = pass.written ++ (c ∷ []);
          })
  wrote old user_id hyp pass h =
      let s = pass.session in
      let out_id = hyp.outflow_leg.classified_event_id in
      let in_id = hyp.inflow_leg.classified_event_id in
      let out = existing_singleton s out_id outflow in
      let inf = existing_singleton s in_id inflow in
      let w =
        write_pair-Wrote s user_id hyp out inf h.kept.apart h.fresh
          (singleton_PlainIf s out_id outflow h.kept.apart)
          (singleton_PlainIf s in_id inflow h.kept.apart) in
      record {
        kept = and_then owned h.kept w.0;
        fresh = w.1;
        free = add_written pass (write_pair s user_id hyp out inf).1 h.free w.2;
      }

  pair_step-Fits :
      (old : List BridgeCorrelation) (user_id : ℕ) (hyp : PairHypothesis) (pass : Pass)
      → Fits old pass
      → Fits old (pair_step user_id hyp pass)
  unfolding pair_step
  pair_step-Fits old user_id hyp pass h =
      let s = pass.session in
      let out_id = hyp.outflow_leg.classified_event_id in
      let in_id = hyp.inflow_leg.classified_event_id in
      elim (Bool-cases (contains out_id pass.used || contains in_id pass.used)) [
        | inl taken ↦ rw (pair_step, taken) h
        | inr free ↦ elim (Bool-cases (is_user_resolved s out_id outflow)) [
          | inl users ↦
              rw (pair_step, free, users) (record { kept = h.kept; fresh = h.fresh; free = h.free })
          | inr out_free ↦ elim (Bool-cases (is_user_resolved s in_id inflow)) [
            | inl users ↦
                rw (pair_step, free, out_free, users)
                  (record { kept = h.kept; fresh = h.fresh; free = h.free })
            | inr in_free ↦ elim (Option-cases (existing_pair s hyp)) [
              | inr (c, found) ↦
                  rw (pair_step, free, out_free, in_free, found)
                    (record {
                      kept = h.kept;
                      fresh = h.fresh;
                      free =
                          add_written pass c h.free
                            (pair_Plain owned s hyp c h.kept.apart out_free found).1;
                    })
              | inl none_found ↦
                  rw (pair_step, free, out_free, in_free, none_found) (wrote old user_id hyp pass h)
            ]
          ]
        ]
      ]

  leg_step-Fits :
      (old : List BridgeCorrelation) (user_id : ℕ) (leg : CandidateLeg) (pass : Pass)
      → Fits old pass
      → Fits old (leg_step user_id leg pass)
  unfolding leg_step
  leg_step-Fits old user_id leg pass h =
      let s = pass.session in
      let leg_id = leg.classified_event_id in
      elim (Bool-cases (contains leg_id pass.used)) [
        | inl taken ↦ rw (leg_step, taken) h
        | inr free ↦ elim (Bool-cases (is_user_resolved s leg_id leg.direction)) [
          | inl users ↦ rw (leg_step, free, users) h
          | inr ours ↦ elim (Option-cases (existing_singleton s leg_id leg.direction)) [
            | inr (c, found) ↦
                rw (leg_step, free, ours, found)
                  (record {
                    kept = h.kept;
                    fresh = h.fresh;
                    free =
                        add_written pass c h.free
                          (singleton_Plain owned s leg_id leg.direction c h.kept.apart found).1;
                  })
            | inl none_found ↦
                let c = new_singleton s user_id leg in
                rw (leg_step, free, ours, none_found)
                  (record {
                    kept =
                        and_then owned h.kept
                          (append-Keeps owned c (refl, now s h.fresh) s.correlations h.kept.apart);
                    fresh = later s h.fresh;
                    free = add_written pass c h.free (now s h.fresh);
                  })
          ]
        ]
      ]

  pair_loop-Fits :
      (old : List BridgeCorrelation) (user_id : ℕ) (hyps : List PairHypothesis) (pass : Pass)
      → Fits old pass
      → Fits old (pair_loop user_id hyps pass)
  unfolding pair_loop
  pair_loop-Fits old user_id [] pass h = h
  pair_loop-Fits old user_id (hyp ∷ hyps) pass h =
      pair_loop-Fits old user_id hyps _ (pair_step-Fits old user_id hyp pass h)

  leg_loop-Fits :
      (old : List BridgeCorrelation) (user_id : ℕ) (legs : List CandidateLeg) (pass : Pass)
      → Fits old pass
      → Fits old (leg_loop user_id legs pass)
  unfolding leg_loop
  leg_loop-Fits old user_id [] pass h = h
  leg_loop-Fits old user_id (leg ∷ legs) pass h =
      leg_loop-Fits old user_id legs _ (leg_step-Fits old user_id leg pass h)

  -- The pairing leaves the users' rows, and writes to no other row under their keys.
  pub pair_and_persist-Fits :
      (s : Session) (legs : List CandidateLeg) (user_id : ℕ)
      → Apart owned s.correlations
      → Fresh owned s
      → Keeps owned s.correlations (pair_and_persist s legs user_id).0.correlations
        × All (λ c. owned c.id ≡ false) (pair_and_persist s legs user_id).1
  unfolding pair_and_persist
  pair_and_persist-Fits s legs user_id h fresh =
      let start : Fits s.correlations (record { session = s; used = []; written = [] }) = record {
        kept = keep owned s.correlations h;
        fresh = fresh;
        free = tt;
      } in
      let done = leg_loop-Fits s.correlations user_id legs _ (
        pair_loop-Fits s.correlations user_id (build_hypotheses legs)
          (record { session = s; used = []; written = [] }) start) in
      (done.kept, done.free)

  scored-plain :
      (k : ℕ) (after : BridgeCorrelation) (s : Session)
      → owned k ≡ false
      → owned after.id ≡ false
      → is_user after.resolved_by ≡ false
      → Apart owned s.correlations
      → Keeps owned s.correlations (set_correlation k (λ _. after) s).correlations
  unfolding set_correlation
  scored-plain k after s free_k free plain h =
      update-Keeps owned k (λ _. after) free_k (λ c p. (plain, free)) s.correlations h

  auto_plain : (b : Bool) → is_user (if b then some auto else none) ≡ false
  auto_plain true = refl
  auto_plain false = refl

  score_one-Keeps :
      (user_id k : ℕ) (state : Scoring)
      → owned k ≡ false
      → Apart owned state.session.correlations
      → Keeps owned state.session.correlations (score_one user_id k state).session.correlations
  unfolding score_one scored
  score_one-Keeps user_id k state free h = elim (Option-cases (get_correlation state.session k)) [
    | inl missing ↦ rw (score_one, missing) (keep owned state.session.correlations h)
    | inr (corr, found) ↦ elim (Option-cases (scorable state.session corr)) [
      | inl skipped ↦ rw (score_one, found, skipped) (keep owned state.session.correlations h)
      | inr ((out_ct, in_ct), pair) ↦
          let s = state.session in
          let after = scored s user_id corr out_ct in_ct in
          let free_corr : owned corr.id ≡ false =
            ap owned ((==_iff corr.id k).0 (find-fits (λ c. c.id == k) s.correlations corr found))
            ∙ free in
          rw
            (
              score_one,
              found,
              pair,
              set_classification_signal-Same (set_correlation corr.id (λ _. after) s) after
                  (is_confirmed after.status),
            )
            (scored-plain corr.id after s free_corr free_corr (auto_plain _) h)
    ]
  ]

  score_loop-Keeps :
      (user_id : ℕ) (pairs : List BridgeCorrelation) (state : Scoring)
      → All (λ c. owned c.id ≡ false) pairs
      → Apart owned state.session.correlations
      → Keeps owned state.session.correlations (score_loop user_id pairs state).session.correlations
  unfolding score_loop
  score_loop-Keeps user_id [] state free h = keep owned state.session.correlations h
  score_loop-Keeps user_id (c ∷ cs) state (free, frees) h =
      let first = score_one-Keeps user_id c.id state free h in
      and_then owned first (score_loop-Keeps user_id cs _ frees first.apart)

  -- A bridge pass leaves every correlation that a user resolved as it is, and adds none: given
  -- that a predicate `owned` of keys tells the users' rows from the others and has none of the
  -- keys that uuid7 will still draw, the users' rows are the same list before and after.
  pub correlate-user_rows :
      (s : Session) (user_id : ℕ) (since : Option ℕ)
      → Apart owned s.correlations
      → Fresh owned s
      → user_rows (correlate s user_id since).session.correlations ≡ user_rows s.correlations
  unfolding correlate
  correlate-user_rows s user_id since h fresh =
      let legs = find_candidate_legs s user_id since default_materiality in
      let (paired, free) = pair_and_persist-Fits s legs user_id h fresh in
      (and_then owned paired
        (score_loop-Keeps user_id (pair_and_persist s legs user_id).1 _ free paired.apart)).rows
