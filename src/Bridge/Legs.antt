-- ===== src/Bridge/Legs.antt =====
-- The legs of domain/bridge/candidates.py and the pair hypotheses of domain/bridge/pairing.py.
use lemon_ledger.Prelude.{
  ℕ, ◌/◌, ℤ, pos, ltb, leb, ◌==◌, if◌then◌else◌, magnitude, signed, sub_ℕ, Bool, true, false, ◌&&◌,
  ◌||◌, not, Option, List, [], ◌∷◌, ◌++◌, filter, sorted,
}
use lemon_ledger.Models.{Chain, same_chain}
use lemon_ledger.Decimal.{Decimal, usd, units, sub, quotient, mul, to_integral}

pub data LegDirection : Type 0 where
  outflow inflow : LegDirection

pub record CandidateLeg : Type 0 where
  pub classified_event_id : ℕ
  pub direction : LegDirection
  pub wallet_id : ℕ
  pub user_id : ℕ
  pub chain : Chain
  pub logical_asset_id : ℕ
  pub token_id : ℕ
  pub amount : ℕ
  pub value_usd : Option ℤ
  pub occurred_at : ℕ
  pub contract_address : ℕ

pub record PairHypothesis : Type 0 where
  pub outflow_leg : CandidateLeg
  pub inflow_leg : CandidateLeg
  pub time_delta_seconds : ℤ
  pub amount_delta_bps : ℤ

abbrev pub is_outflow : CandidateLeg → Bool
is_outflow leg = elim leg.direction [ outflow ↦ true | inflow ↦ false ]

abbrev ten_thousand : Decimal
ten_thousand = record { coef = pos 10_000; places = 0 }

-- `_amount_delta_bps`
unfoldable pub amount_delta_bps : CandidateLeg → CandidateLeg → ℤ
amount_delta_bps out inf =
    if out.amount == 0
    then pos 0
    else to_integral (
        mul (quotient (usd (sub (pos inf.amount) (pos out.amount))) (units out.amount))
          ten_thousand)

-- `int((inf.occurred_at - out.occurred_at).total_seconds())`, which drops the microseconds.
unfoldable pub time_delta_seconds : CandidateLeg → CandidateLeg → ℤ
time_delta_seconds out inf =
    let delta = sub_ℕ inf.occurred_at out.occurred_at in signed delta (magnitude delta / 1_000_000)

abbrev pub pairing_window_seconds : ℕ
pairing_window_seconds = 14_400

abbrev pub pairing_amount_tol_bps : ℕ
pairing_amount_tol_bps = 500

-- `_eligible`
unfoldable pub eligible : CandidateLeg → CandidateLeg → Bool
eligible out inf =
    is_outflow out
    && (not (is_outflow inf)
        && (not (same_chain out.chain inf.chain)
            && (out.logical_asset_id == inf.logical_asset_id
                && (leb (magnitude (time_delta_seconds out inf)) pairing_window_seconds
                    && leb (magnitude (amount_delta_bps out inf)) pairing_amount_tol_bps))))

unfoldable pub hypothesis : CandidateLeg → CandidateLeg → PairHypothesis
hypothesis out inf = record {
  outflow_leg = out;
  inflow_leg = inf;
  time_delta_seconds = time_delta_seconds out inf;
  amount_delta_bps = amount_delta_bps out inf;
}

-- The inner loop of `_build_hypotheses`, and the outer one.
unfoldable pub hypotheses_of : CandidateLeg → List CandidateLeg → List PairHypothesis
hypotheses_of out [] = []
hypotheses_of out (inf ∷ inflows) =
    let rest = hypotheses_of out inflows in
    if eligible out inf then hypothesis out inf ∷ rest else rest

unfoldable pub all_hypotheses : List CandidateLeg → List CandidateLeg → List PairHypothesis
all_hypotheses [] inflows = []
all_hypotheses (out ∷ outflows) inflows =
    hypotheses_of out inflows ++ all_hypotheses outflows inflows

-- The key of the sort: (|Δbps|, |Δt|).
abbrev pub closer : PairHypothesis → PairHypothesis → Bool
closer g h =
    ltb (magnitude g.amount_delta_bps) (magnitude h.amount_delta_bps)
    || (magnitude g.amount_delta_bps == magnitude h.amount_delta_bps
        && ltb (magnitude g.time_delta_seconds) (magnitude h.time_delta_seconds))

unfoldable pub build_hypotheses : List CandidateLeg → List PairHypothesis
build_hypotheses legs =
    sorted closer
      (all_hypotheses (filter is_outflow legs) (filter (λ leg. not (is_outflow leg)) legs))
