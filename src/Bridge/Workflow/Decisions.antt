-- ===== src/Bridge/Workflow/Decisions.antt =====
-- On the decisions of users: `resolve_pair` and `resolve_unmatched` of domain/bridge/workflow.py.
use lemon_ledger.Prelude.{
  ℕ, ◌==◌, ◌≡◌, refl, ap, ◌∙◌, arith, Bool, Bool-cases, true, false, ◌&&◌, Option, none, some, find,
  find-fits, find-update, inl, inr, if◌then◌else◌, String, ok,
}
use lemon_ledger.Models.{
  Session, ClassifiedTransaction, BridgeCorrelation, set_event, BridgeTreatment, relocation,
  disposition,
}
use lemon_ledger.Bridge.Pairing.{is_user}
use lemon_ledger.Bridge.Signals.{
  set_classification_signal, signal_confirmed, signal_taxable, pair_treatment, set_leg,
  taxable_outflow, taxable_inflow, bridged_outflow, bridged_inflow, linked,
}
use lemon_ledger.Bridge.Workflow.{
  Decision, confirm, reject, get_correlation, set_correlation, write_audit, resolve_pair,
  decide_pair, decided, status_of, same_outcome, is_confirm,
}

-- The signals write to events alone.
abbrev Same : Session → Session → Type 0
Same s x = x ≡ record s { events = x.events }

two_legs-Same :
    (o i : Option ℕ) (g h : ClassifiedTransaction → ClassifiedTransaction) (s : Session)
    → Same s (set_leg i h (set_leg o g s))
unfolding set_event
two_legs-Same none none g h s = refl
two_legs-Same none (some i) g h s = refl
two_legs-Same (some o) none g h s = refl
two_legs-Same (some o) (some i) g h s = refl

pub set_classification_signal-Same :
    (s : Session) (corr : BridgeCorrelation) (is_final : Bool)
    → set_classification_signal s corr is_final
      ≡ record s { events = (set_classification_signal s corr is_final).events }
unfolding set_classification_signal signal_confirmed signal_taxable
set_classification_signal-Same s corr is_final = go is_final (pair_treatment s corr)
  where
    legs :
        (g h : ClassifiedTransaction → ClassifiedTransaction)
        → Same s (
            set_leg corr.inflow_classified_event_id h
              (set_leg corr.outflow_classified_event_id g s))
    legs g h = two_legs-Same corr.outflow_classified_event_id corr.inflow_classified_event_id g h s

    go :
        (b : Bool) (t : BridgeTreatment)
        → Same s (if b then signal_confirmed t corr s else signal_taxable corr s)
    go true relocation = legs (bridged_outflow corr) (bridged_inflow corr)
    go true disposition = legs (linked corr) (linked corr)
    go false t = legs taxable_outflow taxable_inflow

-- The row carries the user's decision.
pub record IsDecided (s : Session) (corr_id : ℕ) (decision : Decision) : Type 0 where
  pub row : BridgeCorrelation
  pub found : get_correlation s corr_id ≡ some row
  pub by_the_user : is_user row.resolved_by ≡ true
  pub outcome : same_outcome decision row.status ≡ true

status_of-outcome : (decision : Decision) → same_outcome decision (status_of decision) ≡ true
status_of-outcome confirm = refl
status_of-outcome reject = refl

settled :
    (s : Session) (corr_id : ℕ) (decision : Decision) (actor : String)
    → IsDecided s corr_id decision
    → resolve_pair s corr_id decision actor ≡ ok s
unfolding resolve_pair
settled s corr_id decision actor h = rw (resolve_pair, h.found, h.by_the_user, h.outcome) refl

decide_pair-IsDecided :
    (s : Session) (corr_id : ℕ) (corr : BridgeCorrelation) (decision : Decision) (actor : String)
    → get_correlation s corr_id ≡ some corr
    → IsDecided (decide_pair s corr_id corr decision actor) corr_id decision
unfolding decide_pair write_audit set_correlation
decide_pair-IsDecided s corr_id corr decision actor found = record {
  row = decided s.runtime.now decision corr;
  found =
      ap (λ x. find (λ c. c.id == corr_id) x.correlations)
        (set_classification_signal-Same
          (set_correlation corr_id (λ _. decided s.runtime.now decision corr) s)
          (decided s.runtime.now decision corr) (is_confirm decision))
      ∙ find-update (λ c. c.id == corr_id) (decided s.runtime.now decision corr) s.correlations corr
          (find-fits (λ c. c.id == corr_id) s.correlations corr found) found;
  by_the_user = refl;
  outcome = status_of-outcome decision;
}

-- What the call gives for a row that is there.
pub record Resolves (s : Session) (corr_id : ℕ) (decision : Decision) (actor : String)
    : Type 0 where
  pub after : Session
  pub result : resolve_pair s corr_id decision actor ≡ ok after
  pub decision_stands : IsDecided after corr_id decision
  pub again : (other : String) → resolve_pair after corr_id decision other ≡ ok after

-- For a correlation that is there `resolve_pair` succeeds, whatever its status and whoever
-- resolved it: afterwards the row has the status of the decision and is the user's, and the same
-- decision, by whichever actor, changes nothing more, the audit log included.
pub resolve_pair-Resolves :
    (s : Session) (corr_id : ℕ) (corr : BridgeCorrelation) (decision : Decision) (actor : String)
    → get_correlation s corr_id ≡ some corr
    → Resolves s corr_id decision actor
unfolding resolve_pair
resolve_pair-Resolves s corr_id corr decision actor found =
    elim (Bool-cases (is_user corr.resolved_by && same_outcome decision corr.status)) [
      | inl same ↦ record {
        after = s;
        result = rw (resolve_pair, found, same) refl;
        decision_stands = record {
          row = corr;
          found = found;
          by_the_user = ground (arith, same);
          outcome = ground (arith, same);
        };
        again = λ other. rw (resolve_pair, found, same) refl;
      }
      | inr new ↦
          let decided_now = decide_pair-IsDecided s corr_id corr decision actor found in
          record {
            after = decide_pair s corr_id corr decision actor;
            result = rw (resolve_pair, found, new) refl;
            decision_stands = decided_now;
            again = λ other. settled _ corr_id decision other decided_now;
          }
    ]
