-- ===== src/Bridge/Candidates.antt =====
-- `find_candidate_legs` of domain/bridge/candidates.py.
use lemon_ledger.Prelude.{
  ℕ, ℤ, pos, ◌^◌, leb, ltb_ℤ, ◌==◌, if◌then◌else◌, Bool, true, false, ◌&&◌, not, Option, none, some,
  List, [], ◌∷◌, ◌++◌, find,
}
use lemon_ledger.Models.{
  Session, ClassifiedTransaction, ClassificationKind, transfer_in, transfer_out,
  TokenAssetMembership,
}
use lemon_ledger.Bridge.Legs.{LegDirection, outflow, inflow, CandidateLeg}

-- The default of `materiality_usd`, one dollar.
abbrev pub default_materiality : ℤ
default_materiality = pos (10 ^ 18)

abbrev pub is_transfer : ClassificationKind → Bool
is_transfer transfer_out = true
is_transfer transfer_in = true
is_transfer _ = false

abbrev pub direction_of : ClassificationKind → LegDirection
direction_of transfer_out = outflow
direction_of _ = inflow

abbrev pub is_material : ℤ → Option ℤ → Bool
is_material materiality_usd none = true
is_material materiality_usd (some value) = not (ltb_ℤ value materiality_usd)

abbrev pub is_since : Option ℕ → ClassifiedTransaction → Bool
is_since none ct = true
is_since (some since) ct = leb since ct.occurred_at

abbrev pub leg_of : ClassifiedTransaction → ℕ → ℕ → ℕ → CandidateLeg
leg_of ct token_id logical_asset_id user_id = record {
  classified_event_id = ct.id;
  direction = direction_of ct.classification;
  wallet_id = ct.wallet_id;
  user_id = user_id;
  chain = ct.chain;
  logical_asset_id = logical_asset_id;
  token_id = token_id;
  amount = ct.amount;
  value_usd = ct.value_usd_at_event;
  occurred_at = ct.occurred_at;
  contract_address = ct.contract_address;
}

-- The join of one event with the memberships of its token.
unfoldable pub joined_legs :
    ClassifiedTransaction → ℕ → ℕ → List TokenAssetMembership → List CandidateLeg
joined_legs ct token_id user_id [] = []
joined_legs ct token_id user_id (m ∷ memberships) =
    let rest = joined_legs ct token_id user_id memberships in
    if m.token_id == token_id then leg_of ct token_id m.logical_asset_id user_id ∷ rest else rest

-- The WHERE clause and the two tests of the loop. A token that is NULL joins no membership.
unfoldable pub is_candidate : Session → ℕ → Option ℕ → ℤ → ClassifiedTransaction → Bool
is_candidate s user_id since materiality_usd ct =
    elim (find (λ w. w.id == ct.wallet_id) s.wallets) [
      | none ↦ false
      | some w ↦
          w.user_id == user_id
          && (is_transfer ct.classification
              && (is_since since ct && is_material materiality_usd ct.value_usd_at_event))
    ]

unfoldable pub event_legs : Session → ℕ → Option ℕ → ℤ → ClassifiedTransaction → List CandidateLeg
event_legs s user_id since materiality_usd ct =
    if is_candidate s user_id since materiality_usd ct
    then elim ct.token_id [
      | none ↦ []
      | some token_id ↦ joined_legs ct token_id user_id s.memberships
    ]
    else []

unfoldable pub legs_of : Session → ℕ → Option ℕ → ℤ → List ClassifiedTransaction → List CandidateLeg
legs_of s user_id since materiality_usd [] = []
legs_of s user_id since materiality_usd (ct ∷ events) =
    event_legs s user_id since materiality_usd ct ++ legs_of s user_id since materiality_usd events

unfoldable pub find_candidate_legs : Session → ℕ → Option ℕ → ℤ → List CandidateLeg
find_candidate_legs s user_id since materiality_usd =
    legs_of s user_id since materiality_usd s.events
