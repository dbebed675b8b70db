-- ===== src/Bridge/Signals/Treatments.antt =====
-- What the lot engine derives from the signals of domain/bridge/workflow.py.
use lemon_ledger.Prelude.{
  if◌then◌else◌, sym, ℕ, ◌==◌, ◌≡◌, ◌≢◌, refl, ap, ◌∙◌, arith, Bool, true, false, none, some,
  find-update-map, find-update-other,
}
use lemon_ledger.Models.{
  Session, ClassifiedTransaction, get_event, set_event, BridgeTreatment, relocation, disposition,
  BridgeCorrelation, LotTreatment, acquire, dispose, relocate, no_treatment,
}
use lemon_ledger.Bridge.Signals.{
  set_classification_signal, signal_confirmed, signal_taxable, pair_treatment, taxable_outflow,
  taxable_inflow, bridged_outflow, bridged_inflow, linked,
}
use lemon_ledger.Lots.Treatment.{derive_treatment, treatment_from_kind}

-- What the engine does with the outflow once the signal is set: `before` is what it did with it
-- until then.
abbrev pub outflow_after : Bool → BridgeTreatment → LotTreatment → LotTreatment
outflow_after false treatment before = dispose
outflow_after true relocation before = no_treatment
outflow_after true disposition before = before

abbrev pub inflow_after : Bool → BridgeTreatment → LotTreatment → LotTreatment
inflow_after false treatment before = acquire
inflow_after true relocation before = relocate
inflow_after true disposition before = before

-- The event with the key is there and the engine derives the treatment from it.
abbrev pub Derives : Session → ℕ → LotTreatment → Type 0
Derives s k treatment =
    (event : ClassifiedTransaction) × (get_event s k ≡ some event)
    × (derive_treatment event ≡ treatment)

-- Reads of events after an assignment to one.
module _ (s : Session) (f : ClassifiedTransaction → ClassifiedTransaction)
    (keeps : (e : ClassifiedTransaction) → (f e).id ≡ e.id) where
  pub get-set_event :
      (k : ℕ) (e : ClassifiedTransaction)
      → get_event s k ≡ some e
      → get_event (set_event k f s) k ≡ some (f e)
  unfolding set_event
  get-set_event k e h =
      find-update-map (λ x. x.id == k) f (λ x. ap (λ j. j == k) (keeps x)) s.events e h

  pub get-set_other : (k j : ℕ) → k ≢ j → get_event (set_event k f s) j ≡ get_event s j
  unfolding set_event
  get-set_other k j apart =
      find-update-other (λ x. x.id == k) (λ x. x.id == j) f (λ x. ap (λ i. i == j) (keeps x))
        (λ x h. ground arith) s.events

-- Two assignments, to an outflow and to an inflow.
module _ (s : Session) (g h : ClassifiedTransaction → ClassifiedTransaction)
    (keeps_g : (e : ClassifiedTransaction) → (g e).id ≡ e.id)
    (keeps_h : (e : ClassifiedTransaction) → (h e).id ≡ e.id) (o i : ℕ)
    (out inf : ClassifiedTransaction) (apart : o ≢ i) (found_out : get_event s o ≡ some out)
    (found_inf : get_event s i ≡ some inf) where
  pub both :
      (get_event (set_event i h (set_event o g s)) o ≡ some (g out))
      × (get_event (set_event i h (set_event o g s)) i ≡ some (h inf))
  both = (
    get-set_other (set_event o g s) h keeps_h i o (λ e. apart (sym e))
        ∙ get-set_event s g keeps_g o out found_out,
    get-set_event (set_event o g s) h keeps_h i inf
        (get-set_other s g keeps_g o i apart ∙ found_inf),
  )

module _ (s : Session) (corr : BridgeCorrelation) (is_final : Bool) (o i : ℕ)
    (out inf : ClassifiedTransaction) where
  -- A pair's signal decides what the engine does with its two events, which carry no resolution
  -- of a transfer: a confirmed pair of an entity that relocates leaves the outflow alone and
  -- relocates at the inflow, one of an entity that disposes changes nothing, and a pair that is
  -- not confirmed is a disposal and an acquisition.
  pub set_classification_signal-treatments :
      (corr.outflow_classified_event_id ≡ some o)
      → (corr.inflow_classified_event_id ≡ some i)
      → o ≢ i
      → get_event s o ≡ some out
      → get_event s i ≡ some inf
      → out.transfer_resolution ≡ none
      → inf.transfer_resolution ≡ none
      → Derives
          (set_classification_signal s corr is_final)
          o
          (outflow_after is_final (pair_treatment s corr) (derive_treatment out))
        × Derives
            (set_classification_signal s corr is_final)
            i
            (inflow_after is_final (pair_treatment s corr) (derive_treatment inf))
  unfolding set_classification_signal signal_confirmed signal_taxable derive_treatment
      treatment_from_kind
  set_classification_signal-treatments e_o e_i apart found_out found_inf plain_out plain_inf =
      go is_final (pair_treatment s corr)
    where
      derived :
          (g h : ClassifiedTransaction → ClassifiedTransaction)
          → ((e : ClassifiedTransaction) → (g e).id ≡ e.id)
          → ((e : ClassifiedTransaction) → (h e).id ≡ e.id)
          → {t u : LotTreatment} → derive_treatment (g out) ≡ t
          → derive_treatment (h inf) ≡ u
          → Derives (set_event i h (set_event o g s)) o t
            × Derives (set_event i h (set_event o g s)) i u
      derived g h kg kh dt du =
          let (found_o, found_i) = both s g h kg kh o i out inf apart found_out found_inf in
          ((g out, found_o, dt), (h inf, found_i, du))

      go :
          (b : Bool) (t : BridgeTreatment)
          → Derives
              (if b then signal_confirmed t corr s else signal_taxable corr s)
              o
              (outflow_after b t (derive_treatment out))
            × Derives
                (if b then signal_confirmed t corr s else signal_taxable corr s)
                i
                (inflow_after b t (derive_treatment inf))
      go false t =
          simp (e_o, e_i)
            (derived taxable_outflow taxable_inflow (λ _. refl) (λ _. refl) (rw plain_out refl)
              (rw plain_inf refl))
      go true relocation =
          simp (e_o, e_i)
            (derived (bridged_outflow corr) (bridged_inflow corr) (λ _. refl) (λ _. refl)
              (rw plain_out refl) (rw plain_inf refl))
      go true disposition =
          simp (e_o, e_i) (derived (linked corr) (linked corr) (λ _. refl) (λ _. refl) refl refl)
