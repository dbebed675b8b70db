-- ===== src/CrossEntity/Resolve/Outcomes.antt =====
-- On `resolve_classification` of domain/cross_entity/resolve.py.
use lemon_ledger.Prelude.{
  find-fits, find-update, ℕ, ◌==◌, ◌≡◌, refl, ap, ◌∙◌, arith, Bool, Bool-cases, true, false, ◌&&◌,
  Option, none, some, find, update, String, ok, err, if◌then◌else◌, inl, inr, Result,
}
use lemon_ledger.Models.{
  Session, ClassifiedTransaction, PendingClassification, PendingClassificationState, classified,
  ChosenClassification, capital_contribution, sale, gift, loan, reassignment, payment,
  resolve_action, set_event,
}
use lemon_ledger.CrossEntity.Resolve.{
  ResolveError, member, is_allowed, validate_choice, load, may_resolve, resolve_classification,
  resolved_row, chosen_is, entry_of, not_found, is_classified, same_choice, stamp_legs, save,
  write_audit, outflow_resolution, stamps_inflow, stamp_resolution, stamp_inflow, locate_outflow_ct,
  locate_inflow_ct,
}

pub same_choice_refl : (c : ChosenClassification) → same_choice c c ≡ true
same_choice_refl capital_contribution = refl
same_choice_refl sale = refl
same_choice_refl gift = refl
same_choice_refl loan = refl
same_choice_refl reassignment = refl
same_choice_refl payment = refl

abbrev pub Same : Session → Session → Type 0
Same s x = x.pendings ≡ s.pendings

pub stamp_legs-pendings :
    (s : Session) (pc : PendingClassification) (c : ChosenClassification)
    → Same s (stamp_legs s pc c)
unfolding stamp_legs set_event
stamp_legs-pendings s pc c = out (locate_outflow_ct s pc)
  where
    both :
        (stamped : Session) (o : ClassifiedTransaction)
        → stamped.pendings ≡ s.pendings
        → (i : Option ClassifiedTransaction)
        → Same s (elim i [
          | none ↦ stamped
          | some inflow_ct ↦
              set_event inflow_ct.id (stamp_inflow (outflow_resolution pc.kind c) o.id) stamped
        ])
    both stamped o e none = e
    both stamped o e (some i) = e

    inflow :
        (stamped : Session) (o : ClassifiedTransaction)
        → stamped.pendings ≡ s.pendings
        → (b : Bool)
        → Same s (
            if b
            then elim (locate_inflow_ct stamped pc o) [
              | none ↦ stamped
              | some inflow_ct ↦
                  set_event inflow_ct.id (stamp_inflow (outflow_resolution pc.kind c) o.id) stamped
            ]
            else stamped)
    inflow stamped o e true = both stamped o e (locate_inflow_ct stamped pc o)
    inflow stamped o e false = e

    out :
        (o : Option ClassifiedTransaction)
        → Same s (elim o [
          | none ↦ s
          | some outflow_ct ↦
              let stamped =
                set_event outflow_ct.id (stamp_resolution (outflow_resolution pc.kind c)) s in
              if stamps_inflow pc.kind c
              then elim (locate_inflow_ct stamped pc outflow_ct) [
                | none ↦ stamped
                | some inflow_ct ↦
                    set_event inflow_ct.id
                      (stamp_inflow (outflow_resolution pc.kind c) outflow_ct.id)
                      stamped
              ]
              else stamped
        ])
    out none = refl
    out (some o) = inflow (set_event o.id _ s) o refl (stamps_inflow pc.kind c)

-- A row that has the choice already is left as it is.
resolve_classification-settled :
    (s : Session) (pending_id : ℕ) (pc : PendingClassification) (c : ChosenClassification)
    (actor : String) (memo : Option String) (rule_id : Option ℕ)
    → load s pending_id ≡ ok pc
    → is_allowed pc.kind c ≡ true
    → pc.state ≡ classified
    → chosen_is pc.chosen_classification c ≡ true
    → resolve_classification s pending_id (member c) actor memo rule_id ≡ ok (s, pc)
unfolding resolve_classification validate_choice
resolve_classification-settled s k pc c actor memo rule_id loaded allowed state chosen =
    simp (loaded, allowed, state, chosen)

-- The row as it becomes, and the session with it, its legs stamped and its audit entry.
abbrev new_row :
    Session
    → PendingClassification
    → ChosenClassification
    → Option String
    → Option ℕ
    → PendingClassification
new_row s pc c memo rule_id = resolved_row pc c memo rule_id s.runtime.now

abbrev after :
    Session
    → PendingClassification
    → ChosenClassification
    → String
    → Option String
    → Option ℕ
    → Session
after s pc c actor memo rule_id =
    let new = new_row s pc c memo rule_id in
    write_audit (entry_of pc new actor (resolve_action c) memo rule_id)
      (stamp_legs (save new s) new c)

abbrev ok_or :
    Result ResolveError PendingClassification → PendingClassification → PendingClassification
ok_or (ok x) y = x
ok_or (err _) y = y

pub load-find :
    (s : Session) (k : ℕ) (pc : PendingClassification)
    → load s k ≡ ok pc
    → find (λ p. p.id == k) s.pendings ≡ some pc
unfolding load
load-find s k pc = go (find (λ p. p.id == k) s.pendings)
  where
    go :
        (o : Option PendingClassification)
        → elim o as (λ _. Result ResolveError PendingClassification) [
          | none ↦ err not_found
          | some p ↦ ok p
        ]
          ≡ ok pc
        → o ≡ some pc
    go none h = ground arith
    go (some p) h = ap (λ r. some (ok_or r p)) h

resolve_classification-changed :
    (s : Session) (k : ℕ) (pc : PendingClassification) (c : ChosenClassification) (actor : String)
    (memo : Option String) (rule_id : Option ℕ)
    → load s k ≡ ok pc
    → may_resolve pc.state ≡ true
    → is_allowed pc.kind c ≡ true
    → (chosen_is pc.chosen_classification c && is_classified pc.state) ≡ false
    → resolve_classification s k (member c) actor memo rule_id
      ≡ ok (after s pc c actor memo rule_id, new_row s pc c memo rule_id)
unfolding resolve_classification validate_choice
resolve_classification-changed s k pc c actor memo rule_id loaded may allowed differs =
    simp (loaded, may, allowed, differs)

==→≡ : (a b : ℕ) → a == b ≡ true → a ≡ b
==→≡ a b h = ground arith

is_classified→≡ :
    (state : PendingClassificationState) → is_classified state ≡ true → state ≡ classified
is_classified→≡ state h = ground arith

load-after :
    (s : Session) (k : ℕ) (pc : PendingClassification) (c : ChosenClassification) (actor : String)
    (memo : Option String) (rule_id : Option ℕ)
    → load s k ≡ ok pc
    → load (after s pc c actor memo rule_id) k ≡ ok (new_row s pc c memo rule_id)
unfolding load write_audit save resolved_row
load-after s k pc c actor memo rule_id loaded = (λ i.
    elim (found i) as (λ _. Result ResolveError PendingClassification) [
      | none ↦ err not_found
      | some p ↦ ok p
    ])
  where
    same_id : pc.id ≡ k
    same_id = ==→≡ pc.id k (find-fits (λ p. p.id == k) s.pendings pc (load-find s k pc loaded))

    replaced :
        find (λ p. p.id == k) (save (new_row s pc c memo rule_id) s).pendings
        ≡ some (new_row s pc c memo rule_id)
    replaced =
        (λ i.
          find (λ p. p.id == k)
            (update (λ p. p.id == same_id i) (λ _. new_row s pc c memo rule_id) s.pendings))
        ∙ find-update (λ p. p.id == k) (new_row s pc c memo rule_id) s.pendings pc
            (find-fits (λ p. p.id == k) s.pendings pc (load-find s k pc loaded))
            (load-find s k pc loaded)

    found :
        find
          (λ p. p.id == k)
          (stamp_legs
            (save (new_row s pc c memo rule_id) s)
            (new_row s pc c memo rule_id)
            c).pendings
        ≡ some (new_row s pc c memo rule_id)
    found =
        ap (λ ps. find (λ p. p.id == k) ps)
          (stamp_legs-pendings (save (new_row s pc c memo rule_id) s) (new_row s pc c memo rule_id)
            c)
        ∙ replaced

-- Let a row be loaded that is not dismissed, and let its kind allow the choice. Then
-- `resolve_classification` returns, the row is then classified with the choice, and the same
-- choice made once more, by anyone, changes nothing.
pub resolve_classification-again :
    (s : Session) (k : ℕ) (pc : PendingClassification) (c : ChosenClassification) (actor : String)
    (memo : Option String) (rule_id : Option ℕ)
    → load s k ≡ ok pc
    → may_resolve pc.state ≡ true
    → is_allowed pc.kind c ≡ true
    → (t : Session) × (row : PendingClassification) × (resolve_classification s k
          (member c)
          actor
          memo
          rule_id
        ≡ ok (t, row))
      × (row.state ≡ classified)
      × (chosen_is row.chosen_classification c ≡ true)
      × ((actor : String) (memo : Option String) (rule_id : Option ℕ)
          → resolve_classification t k (member c) actor memo rule_id ≡ ok (t, row))
unfolding resolved_row
resolve_classification-again s k pc c actor memo rule_id loaded may allowed =
    elim (Bool-cases (chosen_is pc.chosen_classification c && is_classified pc.state)) [
      | inl same ↦
          let state = is_classified→≡ pc.state (ground arith) in
          let chosen : chosen_is pc.chosen_classification c ≡ true = ground arith in
          (
            s,
            pc,
            resolve_classification-settled s k pc c actor memo rule_id loaded allowed state chosen,
            state,
            chosen,
            λ a m r. resolve_classification-settled s k pc c a m r loaded allowed state chosen,
          )
      | inr differs ↦ (
        after s pc c actor memo rule_id,
        new_row s pc c memo rule_id,
        resolve_classification-changed s k pc c actor memo rule_id loaded may allowed differs,
        refl,
        same_choice_refl c,
        λ a m r.
            resolve_classification-settled (after s pc c actor memo rule_id) k
              (new_row s pc c memo rule_id) c a m r (load-after s k pc c actor memo rule_id loaded)
              allowed refl (same_choice_refl c),
      )
    ]
