-- ===== src/Tests.antt =====
-- A small session, and the theorems applied to it.
mod Bridge
mod Transfers
mod Gate
mod Classify
mod Ingest
mod Pricing
use lemon_ledger.Prelude.{
  ℕ, ◌+◌, ◌*◌, ◌^◌, ◌<◌, ◌≡◌, refl, arith, pos, negsuc, sum_ℤ, ◌+ℤ◌, ◌-ℤ◌, List, [], String, ◌∷◌,
  map, Option, none, some, false, true, ok, ◌⊎◌, ◌≤◌,
}
use lemon_ledger.Models.{
  Session, Runtime, ClassifiedTransaction, lemonchain, transfer_out, transfer_in, TaxLot, bought,
  fungible, TokenRegistry, fifo_method, PendingClassification, cross_entity, needs_classification,
  classified, sale, gift, by_user, relocation, disposal_related_party, fifo, dispose, relocate,
  long, short, no_1099_da,
}
use lemon_ledger.Decimal.{limit, add, sub, fix, fix_ℕ}
use lemon_ledger.Lots.Methods.{fifo_order}
use lemon_ledger.Lots.Consume.{ConsumptionSlice, consume}
use lemon_ledger.Lots.Consume.Totals.{Consumes, consume-Consumes}
use lemon_ledger.Lots.Lines.{DisposalLine, build_lines, line_of, holding_period}
use lemon_ledger.Lots.Lines.Proceeds.{build_lines-proceeds, line_proceeds, line_qty, qty}
use lemon_ledger.Lots.Methods.{validate}
use lemon_ledger.Lots.Methods.Selection.{Selects, validate-Selects}
use lemon_ledger.Lots.Pools.{open_lots, resolve_entity_id, resolve_entity_for_wallet}
use lemon_ledger.Lots.Pools.Open.{IsOpen, open_lots-exact}
use lemon_ledger.Lots.Dispose.{consumed}
use lemon_ledger.Lots.Dispose.Supply.{Supplies, consumed-Supplies}
use lemon_ledger.Lots.Acquire.{apply_acquire}
use lemon_ledger.Lots.Acquire.Again.{apply_acquire-again}
use lemon_ledger.Models.{add_exception, LotProcessingException}
use lemon_ledger.Prelude.{All, sum_of}
use lemon_ledger.Lots.Dispose.{dispose_token}
use lemon_ledger.Lots.Dispose.Draws.{count}
use lemon_ledger.Lots.Dispose.Conservation.{Spends, IsSound, dispose_token-Spends}
use lemon_ledger.Models.{bridge_in, relocate_gift}
use lemon_ledger.Lots.Relocate.{apply_cross_entity_relocation}
use lemon_ledger.Lots.Relocate.Basis.{Preserves, apply_cross_entity_relocation-Preserves}
use lemon_ledger.Lots.Dispose.{apply_gift_out}
use lemon_ledger.Lots.Dispose.Gifts.{Gives, apply_gift_out-Gives}
use lemon_ledger.Lots.Consume.OldestFirst.{TakesOldest, consume-TakesOldest}
use mathlib.Core.List.{Mem}
use lemon_ledger.Lots.Consume.Exhausts.{ExhaustsAll, consume-Exhausts}
use lemon_ledger.Lots.Engine.Keeps.{Keeps}
use lemon_ledger.Lots.Acquire.{acquisition_basis}
use lemon_ledger.Lots.Acquire.Credits.{Credits, apply_acquire-Acquires}
use lemon_ledger.Lots.Dispose.RelatedParty.{reported, disposal_of-reported}
use lemon_ledger.Lots.Treatment.{derive_treatment}
use lemon_ledger.Forms.ReadModel.{DisposalRow, gain_loss_net}
use lemon_ledger.Forms.Form8949.{build_8949, total_gain_loss_net}
use lemon_ledger.Forms.Form8949.Totals.{gross}
use lemon_ledger.Forms.Form8949.Filed.{IsProper, build_8949-IsFiled}
use lemon_ledger.Forms.ScheduleD.{build_schedule_d}
use lemon_ledger.Forms.ScheduleD.Totals.{build_schedule_d-total}
use lemon_ledger.CrossEntity.Resolve.{
  ResolveError, load, member, resolve_classification, chosen_is, stamp_resolution, stamp_inflow,
  outflow_resolution,
}
use lemon_ledger.CrossEntity.Resolve.Signals.{stamp_resolution-treatment, stamp_inflow-treatment}
use lemon_ledger.CrossEntity.Resolve.Outcomes.{resolve_classification-again}
use lemon_ledger.Bridge.Legs.{PairHypothesis, CandidateLeg, outflow, inflow}

-- One dollar, or one token.
abbrev pub one : ℕ
one = 10 ^ 18

-- A moment is in microseconds, a date in days, and a year has 365.
abbrev pub runtime : Runtime
runtime = record { now = 5; plus_one_year = λ d. d + 365; uuid7 = λ n. 100 + n; year_of = λ t. t }

abbrev pub lot_a : TaxLot
lot_a = record {
  id = 1;
  wallet_id = 7;
  acquired_token_id = 3;
  logical_asset_id = none;
  entity_id = 9;
  acquired_at = 0;
  acquisition_type = bought;
  asset_class = fungible;
  quantity = 10 * one;
  quantity_remaining = 10 * one;
  cost_basis_usd = pos (200 * one);
  source_classified_tx_id = 50;
}

abbrev lot_b : TaxLot
lot_b = record lot_a {
  id = 2;
  acquired_at = 1;
  cost_basis_usd = pos (400 * one);
  source_classified_tx_id = 51;
}

abbrev two_lots : List TaxLot
two_lots = lot_b ∷ lot_a ∷ []

abbrev pub sale_event : ClassifiedTransaction
sale_event = record {
  id = 60;
  wallet_id = 7;
  chain = lemonchain;
  tx_hash = 1;
  event_seq = 0;
  block_number = 5;
  occurred_at = 9;
  classification = transfer_out;
  token_id = some 3;
  contract_address = 4;
  amount = 15 * one;
  value_usd_at_event = some (pos (750 * one));
  needs_review = false;
  manual_override = false;
  bridge_correlation_id = none;
  relocation_source_event_id = none;
  transfer_resolution = none;
  notes = none;
}

abbrev pub purchase_event : ClassifiedTransaction
purchase_event = record sale_event { id = 59; classification = transfer_in; occurred_at = 8 }

abbrev pub token : TokenRegistry
token = record {
  id = 3;
  chain = lemonchain;
  contract_address = some 4;
  symbol = "LEMX";
  decimals = 18;
}

-- A transfer between the wallets 7 and 8 that waits for a user's choice.
abbrev pub transfer : PendingClassification
transfer = record {
  id = 70;
  user_id = 1;
  kind = cross_entity;
  logical_transfer_key = record { chain = lemonchain; tx_hash = 1; wallet_id = 7; event_seq = 0 };
  chain = lemonchain;
  tx_hash = 1;
  transfer_index = 0;
  token_id = 3;
  canonical_asset = "LEMX";
  amount = 15 * one;
  from_wallet_id = 7;
  from_entity_id = 9;
  to_wallet_id = some 8;
  to_entity_id = some 10;
  to_address = none;
  state = needs_classification;
  chosen_classification = none;
  resolved_by = none;
  resolved_rule_id = none;
  dismiss_reason = none;
  note = none;
  detected_at = 4;
  resolved_at = none;
}

abbrev settled : PendingClassification
settled = record transfer {
  id = 71;
  state = classified;
  chosen_classification = some sale;
  resolved_by = some by_user;
}

abbrev pub start : Session
start = record {
  runtime = runtime;
  drawn = 0;
  events = purchase_event ∷ sale_event ∷ [];
  lots = two_lots;
  disposals = [];
  relocations = [];
  exceptions = [];
  memberships = [];
  assets = [];
  tokens = token ∷ [];
  assignments =
      record { wallet_id = 7; entity_id = 9; effective_from = 0; effective_to = none } ∷ [];
  entities =
      record { id = 9; default_basis_method = fifo_method; bridge_treatment = relocation } ∷ [];
  pendings = transfer ∷ settled ∷ [];
  audit = [];
  correlations = [];
  custody = [];
  bridge_audit = [];
  wallets = [];
  raw_transactions = [];
  raw_transfers = [];
  raw_internals = [];
  configs = [];
  burns = [];
}

abbrev slice_a : ConsumptionSlice
slice_a = record { lot = lot_a; quantity_consumed = 10 * one; basis_consumed_usd = pos (200 * one) }

abbrev slice_b : ConsumptionSlice
slice_b = record { lot = lot_b; quantity_consumed = 5 * one; basis_consumed_usd = pos (200 * one) }

consume-Consumes_example : Consumes two_lots (15 * one) (consume fifo_order two_lots (15 * one))
consume-Consumes_example =
    consume-Consumes fifo_order two_lots (15 * one) (omega arith) (omega arith, (omega arith, tt))

build_lines-proceeds_example :
    (lines : List DisposalLine) × (build_lines runtime
        (slice_a ∷ slice_b ∷ [])
        (pos (750 * one))
        9
        fifo
      ≡ ok lines)
    × (sum_ℤ line_proceeds lines ≡ pos (750 * one))
    × (map line_qty lines ≡ map qty (slice_a ∷ slice_b ∷ []))
build_lines-proceeds_example =
    build_lines-proceeds runtime slice_a (slice_b ∷ []) (pos (750 * one)) 9 fifo (omega arith)
      (omega arith) (omega arith)

start_unique : (k : ℕ) → count k two_lots ≤ 1
start_unique k = ground arith

apply_acquire-Acquires_example :
    Credits start (apply_acquire start purchase_event) purchase_event (pos (750 * one)) 9 3
unfolding acquisition_basis resolve_entity_id resolve_entity_for_wallet
apply_acquire-Acquires_example = apply_acquire-Acquires start purchase_event refl

disposal_of-reported_example :
    reported
      (record sale_event { transfer_resolution = some disposal_related_party })
      (line_of runtime (pos (750 * one)) 9 fifo (15 * one) slice_a (pos (150 * one)))
      lot_a
      token
    ≡ pos 0
unfolding ◌-ℤ◌
disposal_of-reported_example =
    disposal_of-reported (record sale_event { transfer_resolution = some disposal_related_party })
      runtime (pos (750 * one)) 9 fifo (15 * one) slice_a (pos (150 * one)) lot_a token
      (omega arith)

-- The rows of a gain of 300 that is held long and a loss of 50 that is held short.
abbrev gain_row : DisposalRow
gain_row = record {
  lot_id = 1;
  disposal_tx_id = 60;
  description = (10 * one, "LEMX");
  acquired_at = 0;
  disposed_at = 400;
  proceeds_usd = pos (500 * one);
  cost_basis_usd = pos (200 * one);
  adjustment_code = none;
  adjustment_usd = none;
  holding_period = long;
  covered_status = no_1099_da;
  asset_class = fungible;
  entity_id = 9;
}

abbrev loss_row : DisposalRow
loss_row = record gain_row { lot_id = 2; proceeds_usd = pos (150 * one); holding_period = short }

gross_small : gross (gain_row ∷ loss_row ∷ []) < limit
unfolding gain_loss_net add sub fix fix_ℕ ◌-ℤ◌ ◌+ℤ◌
gross_small = omega arith

build_8949-IsFiled_example :
    All IsProper (build_8949 (gain_row ∷ loss_row ∷ []) 9 2026 true 5).boxes
    × ((count : DisposalRow → ℕ)
        → sum_of
            (λ b. sum_of count b.rows)
            (build_8949 (gain_row ∷ loss_row ∷ []) 9 2026 true 5).boxes
          ≡ count gain_row + (count loss_row + 0))
build_8949-IsFiled_example = build_8949-IsFiled (gain_row ∷ loss_row ∷ []) 9 2026 true 5

build_schedule_d-total_example :
    let form = build_8949 (gain_row ∷ loss_row ∷ []) 9 2026 true 5 in
    ((build_schedule_d form).total_net
      ≡ (build_schedule_d form).short_term_net +ℤ (build_schedule_d form).long_term_net)
    × ((build_schedule_d form).total_net ≡ sum_ℤ gain_loss_net (gain_row ∷ loss_row ∷ []))
    × ((build_schedule_d form).total_net ≡ total_gain_loss_net form)
build_schedule_d-total_example =
    build_schedule_d-total (gain_row ∷ loss_row ∷ []) gross_small 9 2026 true 5

transfer_loaded : load start 70 ≡ ok transfer
unfolding load
transfer_loaded = refl

resolve_classification-again_example :
    (t : Session) × (row : PendingClassification) × (resolve_classification start 70
        (member gift)
        "user"
        none
        none
      ≡ ok (t, row))
    × (row.state ≡ classified)
    × (chosen_is row.chosen_classification gift ≡ true)
    × ((actor : String) (memo : Option String) (rule_id : Option ℕ)
        → resolve_classification t 70 (member gift) actor memo rule_id ≡ ok (t, row))
resolve_classification-again_example =
    resolve_classification-again start 70 transfer gift "user" none none transfer_loaded refl refl

stamp_resolution-treatment_example :
    derive_treatment (stamp_resolution (outflow_resolution cross_entity sale) sale_event) ≡ dispose
stamp_resolution-treatment_example =
    stamp_resolution-treatment cross_entity sale sale_event refl refl

stamp_inflow-treatment_example :
    derive_treatment (stamp_inflow (outflow_resolution cross_entity gift) 60 purchase_event)
    ≡ relocate
stamp_inflow-treatment_example = stamp_inflow-treatment cross_entity gift 60 purchase_event refl

abbrev pub leg : CandidateLeg
leg = record {
  classified_event_id = 60;
  direction = outflow;
  wallet_id = 7;
  user_id = 1;
  chain = lemonchain;
  logical_asset_id = 2;
  token_id = 3;
  amount = 10 * one;
  value_usd = none;
  occurred_at = 100;
  contract_address = 4;
}

abbrev close_pair : PairHypothesis
close_pair = record {
  outflow_leg = leg;
  inflow_leg = record leg { classified_event_id = 61; direction = inflow; occurred_at = 700 };
  time_delta_seconds = pos 600;
  amount_delta_bps = negsuc 9;
}

-- A second pair, an hour later.
abbrev slow_pair : PairHypothesis
slow_pair = record close_pair { time_delta_seconds = pos 3_600 }

open_lots-exact_example :
    All (λ l. Mem l two_lots × IsOpen start 7 3 l) (open_lots start 7 3)
    × All (λ l. IsOpen start 7 3 l → Mem l (open_lots start 7 3)) two_lots
open_lots-exact_example = open_lots-exact start 7 3

consumed-Supplies_example : Supplies start sale_event 3 (consumed start sale_event 3)
consumed-Supplies_example = consumed-Supplies start sale_event 3 (omega arith)

apply_acquire-again_example :
    (apply_acquire (apply_acquire start purchase_event) purchase_event
      ≡ apply_acquire start purchase_event)
    ⊎ ((x : LotProcessingException) × (apply_acquire start purchase_event ≡ add_exception x start))
apply_acquire-again_example = apply_acquire-again start purchase_event

validate-Selects_example :
    Selects
      ((1, pos (5 * one)) ∷ (2, pos (10 * one)) ∷ [])
      two_lots
      (pos (15 * one))
      (validate ((1, pos (5 * one)) ∷ (2, pos (10 * one)) ∷ []) two_lots (pos (15 * one)))
validate-Selects_example =
    validate-Selects two_lots ((1, pos (5 * one)) ∷ (2, pos (10 * one)) ∷ []) (pos (15 * one))
      (omega arith)

start-IsSound : IsSound start
start-IsSound = record { unique = start_unique; small = (omega arith, (omega arith, tt)) }

dispose_token-Spends_example : Spends start (15 * one) (dispose_token start sale_event 3)
dispose_token-Spends_example = dispose_token-Spends start sale_event 3 start-IsSound (omega arith)

-- The tokens of the sale arrive in the wallet 8.
abbrev arrival_event : ClassifiedTransaction
arrival_event = record sale_event {
  id = 61;
  wallet_id = 8;
  classification = bridge_in;
  relocation_source_event_id = some 60;
}

apply_cross_entity_relocation-Preserves_example : Preserves start (
    apply_cross_entity_relocation start
      (record arrival_event { transfer_resolution = some relocate_gift }))
apply_cross_entity_relocation-Preserves_example =
    apply_cross_entity_relocation-Preserves start
      (record arrival_event { transfer_resolution = some relocate_gift })

apply_gift_out-Gives_example : Gives start (15 * one) (apply_gift_out start sale_event)
apply_gift_out-Gives_example = apply_gift_out-Gives start sale_event start-IsSound (omega arith)

consume-TakesOldest_example : TakesOldest two_lots (consume fifo_order two_lots (15 * one))
consume-TakesOldest_example = consume-TakesOldest two_lots (15 * one)

consume-Exhausts_example : ExhaustsAll (consume fifo_order two_lots (15 * one))
consume-Exhausts_example = consume-Exhausts fifo_order two_lots (15 * one) (omega arith)
