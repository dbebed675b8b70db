-- ===== src/Bridge/Workflow/Unmatched.antt =====
-- On `resolve_unmatched` of domain/bridge/workflow.py, for an outflow with no arrival.
use lemon_ledger.Prelude.{
  Option, sym, subst, ℕ, ◌==◌, ◌≡◌, true, false, refl, ap, ◌∙◌, none, some, find, find-fits,
  find-update, String, ok,
}
use lemon_ledger.Models.{
  Session, ClassifiedTransaction, get_event, set_event, BridgeCorrelation, BridgeStatus, rejected,
  unmatched, UserResolution, sold, third_party, bridge_pending, another, unmatched_action, dispose,
  needs_review,
}
use lemon_ledger.Bridge.Pairing.{is_user}
use lemon_ledger.Bridge.Signals.{set_classification_signal, signal_taxable, taxable_outflow}
use lemon_ledger.Bridge.Signals.Treatments.{Derives, get-set_event}
use lemon_ledger.Bridge.Workflow.{
  get_correlation, set_correlation, corr_snapshot, write_audit, review_leg, leg_id,
  resolve_unmatched, dispose_legs, disposed,
}
use lemon_ledger.Bridge.Workflow.Decisions.{set_classification_signal-Same}
use lemon_ledger.Lots.Treatment.{derive_treatment, treatment_from_kind}

-- The status that the user's resolution leads to.
abbrev pub leads_to : UserResolution → BridgeStatus
leads_to sold = rejected
leads_to third_party = rejected
leads_to bridge_pending = unmatched
leads_to another = unmatched

-- What becomes of the outflow's event: a sale or a payment makes it a disposal, another answer
-- flags it for review, and a bridge that is still awaited leaves it as it is.
abbrev pub Becomes : UserResolution → ClassifiedTransaction → Session → Type 0
Becomes sold out after = Derives after out.id dispose
Becomes third_party out after = Derives after out.id dispose
Becomes bridge_pending out after = get_event after out.id ≡ some out
Becomes another out after = get_event after out.id ≡ some (record out { needs_review = true })

-- The call returns, and the row and the event are as the resolution says.
pub record Disposes (s : Session) (corr_id : ℕ) (resolution : UserResolution) (actor : String)
    (out : ClassifiedTransaction) : Type 0 where
  pub after : Session
  pub result : resolve_unmatched s corr_id resolution actor ≡ ok after
  pub row : BridgeCorrelation
  pub found : get_correlation after corr_id ≡ some row
  pub status : row.status ≡ leads_to resolution
  pub answer : row.user_resolution ≡ some resolution
  pub by_the_user : is_user row.resolved_by ≡ true
  pub event : Becomes resolution out after

abbrev either : Option ℕ → Option ℕ → Option ℕ
either o i = elim o [ none ↦ i | some event_id ↦ some event_id ]

module _ (s : Session) (corr_id : ℕ) (corr : BridgeCorrelation) (actor : String)
    (out : ClassifiedTransaction) (found : get_correlation s corr_id ≡ some corr)
    (outflow : corr.outflow_classified_event_id ≡ some out.id)
    (no_inflow : corr.inflow_classified_event_id ≡ none)
    (there : get_event s out.id ≡ some out) where
  -- The row, and the session with it, its event and its audit entry.
  abbrev new_row : UserResolution → BridgeCorrelation
  new_row resolution = disposed s.runtime.now resolution corr

  abbrev saved : UserResolution → Session
  saved resolution = set_correlation corr_id (λ _. new_row resolution) s

  abbrev ended : UserResolution → Session
  ended resolution =
      write_audit corr_id actor (unmatched_action resolution) (some (corr_snapshot corr))
        (some (corr_snapshot (new_row resolution)))
        (dispose_legs resolution (new_row resolution) (saved resolution))

  row_saved :
      (resolution : UserResolution)
      → get_correlation (saved resolution) corr_id ≡ some (new_row resolution)
  unfolding set_correlation
  row_saved resolution =
      find-update (λ c. c.id == corr_id) (new_row resolution) s.correlations corr
        (find-fits (λ c. c.id == corr_id) s.correlations corr found) found

  event_saved : (resolution : UserResolution) → get_event (saved resolution) out.id ≡ some out
  unfolding set_correlation
  event_saved resolution = there

  dispose_legs-correlations :
      (resolution : UserResolution) (x : Session)
      → (dispose_legs resolution (new_row resolution) x).correlations ≡ x.correlations
  unfolding dispose_legs set_event
  dispose_legs-correlations sold x =
      ap (λ y. y.correlations) (set_classification_signal-Same x (new_row sold) false)
  dispose_legs-correlations third_party x =
      ap (λ y. y.correlations) (set_classification_signal-Same x (new_row third_party) false)
  dispose_legs-correlations bridge_pending x = refl
  dispose_legs-correlations another x = simp outflow

  row_found :
      (resolution : UserResolution)
      → get_correlation (ended resolution) corr_id ≡ some (new_row resolution)
  unfolding write_audit
  row_found resolution =
      ap (λ cs. find (λ c. c.id == corr_id) cs)
        (dispose_legs-correlations resolution (saved resolution))
      ∙ row_saved resolution

  taxed :
      (new : BridgeCorrelation) (x : Session)
      → new.outflow_classified_event_id ≡ some out.id
      → new.inflow_classified_event_id ≡ none
      → get_event x out.id ≡ some out
      → get_event (set_classification_signal x new false) out.id ≡ some (taxable_outflow out)
  unfolding set_classification_signal signal_taxable
  taxed new x o i h = simp (o, i) (get-set_event x taxable_outflow (λ _. refl) out.id out h)

  flagged :
      (new : BridgeCorrelation) (x : Session)
      → new.outflow_classified_event_id ≡ some out.id
      → get_event x out.id ≡ some out
      → get_event (review_leg (leg_id new) x) out.id ≡ some (needs_review out)
  flagged new x o h =
      subst
        (λ leg.
          get_event (review_leg (either leg new.inflow_classified_event_id) x) out.id
          ≡ some (needs_review out))
        (sym o) (get-set_event x needs_review (λ _. refl) out.id out h)

  becomes :
      (resolution : UserResolution)
      → out.transfer_resolution ≡ none
      → Becomes resolution out (ended resolution)
  unfolding write_audit dispose_legs derive_treatment treatment_from_kind
  becomes sold plain = (
    taxable_outflow out,
    taxed (new_row sold) (saved sold) outflow no_inflow (event_saved sold),
    rw plain refl,
  )
  becomes third_party plain = (
    taxable_outflow out,
    taxed (new_row third_party) (saved third_party) outflow no_inflow (event_saved third_party),
    rw plain refl,
  )
  becomes bridge_pending plain = event_saved bridge_pending
  becomes another plain = flagged (new_row another) (saved another) outflow (event_saved another)

  status_led : (resolution : UserResolution) → (new_row resolution).status ≡ leads_to resolution
  status_led sold = refl
  status_led third_party = refl
  status_led bridge_pending = refl
  status_led another = refl

  -- For a correlation of an outflow alone, whose event is there and has no resolution of a
  -- transfer, `resolve_unmatched` succeeds. Afterwards the row has the user's answer and is the
  -- user's. A sale or a transfer to a third party is rejected, and the engine disposes of the
  -- event; for any other answer the row is unmatched, and the event is as it was where a bridge is
  -- awaited, and is flagged for review otherwise.
  pub resolve_unmatched-Disposes :
      (resolution : UserResolution)
      → out.transfer_resolution ≡ none
      → Disposes s corr_id resolution actor out
  unfolding resolve_unmatched
  resolve_unmatched-Disposes resolution plain = record {
    after = ended resolution;
    result = rw (resolve_unmatched, found) refl;
    row = new_row resolution;
    found = row_found resolution;
    status = status_led resolution;
    answer = refl;
    by_the_user = refl;
    event = becomes resolution plain;
  }
