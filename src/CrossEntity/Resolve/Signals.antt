-- ===== src/CrossEntity/Resolve/Signals.antt =====
-- On the signals of domain/cross_entity/resolve.py and the treatments of domain/lots/engine.py.
use lemon_ledger.Prelude.{ℕ, ◌≡◌, refl, arith, true, none}
use lemon_ledger.Models.{
  ClassifiedTransaction, PendingClassificationKind, cross_entity, external_outflow,
  ChosenClassification, capital_contribution, sale, gift, loan, reassignment, payment, LotTreatment,
  dispose, relocate, gift_out_treatment, no_op_loan_treatment, no_treatment,
}
use lemon_ledger.Lots.Treatment.{derive_treatment}
use lemon_ledger.CrossEntity.Resolve.{
  is_allowed, outflow_resolution, stamps_inflow, stamp_resolution, stamp_inflow,
}

-- What a choice is meant to do to the lots of the sender: sales and payments dispose, a loan does
-- nothing, a gift to an outsider consumes lots, and what stays with the owners moves on arrival.
abbrev pub outflow_treatment : PendingClassificationKind → ChosenClassification → LotTreatment
outflow_treatment cross_entity sale = dispose
outflow_treatment cross_entity loan = no_op_loan_treatment
outflow_treatment cross_entity _ = no_treatment
outflow_treatment external_outflow gift = gift_out_treatment
outflow_treatment external_outflow _ = dispose

-- For every choice that is allowed for the kind, the engine derives from an outflow leg that has
-- been stamped, and that has no source of its own, the treatment that the choice means.
pub stamp_resolution-treatment :
    (kind : PendingClassificationKind) (choice : ChosenClassification) (e : ClassifiedTransaction)
    → is_allowed kind choice ≡ true
    → e.relocation_source_event_id ≡ none
    → derive_treatment (stamp_resolution (outflow_resolution kind choice) e)
      ≡ outflow_treatment kind choice
unfolding stamp_resolution derive_treatment
stamp_resolution-treatment cross_entity capital_contribution e h source = rw source
stamp_resolution-treatment cross_entity sale e h source = refl
stamp_resolution-treatment cross_entity gift e h source = rw source
stamp_resolution-treatment cross_entity loan e h source = refl
stamp_resolution-treatment cross_entity reassignment e h source = rw source
stamp_resolution-treatment cross_entity payment e h source = ground arith
stamp_resolution-treatment external_outflow capital_contribution e h source = ground arith
stamp_resolution-treatment external_outflow sale e h source = refl
stamp_resolution-treatment external_outflow gift e h source = refl
stamp_resolution-treatment external_outflow loan e h source = ground arith
stamp_resolution-treatment external_outflow reassignment e h source = ground arith
stamp_resolution-treatment external_outflow payment e h source = refl

-- For every choice that stamps the inflow leg, the engine relocates lots to it, whatever the
-- transaction is classified as.
pub stamp_inflow-treatment :
    (kind : PendingClassificationKind) (choice : ChosenClassification) (source : ℕ)
    (e : ClassifiedTransaction)
    → stamps_inflow kind choice ≡ true
    → derive_treatment (stamp_inflow (outflow_resolution kind choice) source e) ≡ relocate
unfolding stamp_inflow derive_treatment
stamp_inflow-treatment cross_entity capital_contribution k e h = refl
stamp_inflow-treatment cross_entity sale k e h = ground arith
stamp_inflow-treatment cross_entity gift k e h = refl
stamp_inflow-treatment cross_entity loan k e h = ground arith
stamp_inflow-treatment cross_entity reassignment k e h = refl
stamp_inflow-treatment cross_entity payment k e h = ground arith
stamp_inflow-treatment external_outflow choice k e h = ground arith
