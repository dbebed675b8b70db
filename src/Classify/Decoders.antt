-- ===== src/Classify/Decoders.antt =====
-- classify/decoders/base.py: the four detectors that a decoder of a token runs.
pub mod Rewards
use lemon_ledger.Prelude.{
  ℕ, ◌+◌, ◌*◌, ℤ, pos, ◌==◌, is_some, if◌then◌else◌, Bool, true, false, ◌&&◌, ◌||◌, not, Option,
  none, some, List, [], ◌∷◌,
}
use lemon_ledger.Models.{
  Session, RawTokenTransfer, L2DecoderConfig, ContractStatus, status_unknown, status_confirmed,
  pending_kind, reward, stake, unstake, mint, get_token,
}
use lemon_ledger.Decimal.{Decimal, mul}
use lemon_ledger.Classify.Types.{
  TxBundle, ClassifiedEvent, Work, has, claim, emit, text_of, token_units, from_token_units,
  to_column?, zero_addr, one_piece, index,
}
use lemon_ledger.Classify.Context.{
  WalletContext, config_for, is_set, is_tracked_wallet, propose_staking_contract,
  propose_nft_contract, registry_by_address, token_address,
}

-- `for t in b.transfers`
unfoldable pub each : (RawTokenTransfer → Work → Work) → List RawTokenTransfer → Work → Work
each step [] w = w
each step (t ∷ ts) w = each step ts (step t w)

unfoldable pub erc20_address : Session → ℕ → ℕ
erc20_address s token_id = text_of (token_address s token_id)

unfoldable pub decimals_of : Session → ℕ → ℕ
decimals_of s token_id = elim (get_token s token_id) [ none ↦ 18 | some t ↦ t.decimals ]

unfoldable pub is_erc20_of : Session → ℕ → RawTokenTransfer → Bool
is_erc20_of s token_id t = t.contract_address == erc20_address s token_id && not t.has_token_id

-- The contract that a configuration names, "" where it names none.
abbrev pub staking_of : Option L2DecoderConfig → Option ℕ
staking_of none = none
staking_of (some cfg) = cfg.staking_contract

abbrev pub nft_of : Option L2DecoderConfig → Option ℕ
nft_of none = none
nft_of (some cfg) = cfg.nft_contract

unfoldable pub is_nft_of : Session → ℕ → RawTokenTransfer → Bool
is_nft_of s token_id t =
    let nft = nft_of (config_for s token_id) in
    t.has_token_id && (not (is_set nft) || t.contract_address == text_of nft)

unfoldable pub parked_event : Session → ℕ → RawTokenTransfer → ClassifiedEvent
parked_event s token_id t = record {
  classification = pending_kind;
  contract_address = t.contract_address;
  token_id = some token_id;
  amount = token_units t.value (decimals_of s token_id);
  value_usd_at_event = none;
  needs_review = true;
  notes = some "staking_contract unknown; pending Option-C confirmation";
  order_hint = index (pos t.log_index);
}

abbrev pub is_confirmed_status : ContractStatus → Bool
is_confirmed_status status_confirmed = true
is_confirmed_status _ = false

unfoldable pub reward_event :
    TxBundle → WalletContext → Session → L2DecoderConfig → ℕ → RawTokenTransfer → ClassifiedEvent
reward_event b ctx s cfg token_id t =
    let fmv = ctx.price b.chain token_id b.occurred_at in
    record {
      classification = reward;
      contract_address = t.contract_address;
      token_id = some token_id;
      amount = token_units t.value (decimals_of s token_id);
      value_usd_at_event = to_column? fmv;
      needs_review =
          not (is_confirmed_status cfg.staking_contract_status)
          || (cfg.distribution_complete || not (is_some fmv));
      notes = none;
      order_hint = index (pos t.log_index);
    }

-- A transfer of the token to the wallet from a sender that is neither zero nor the user's.
unfoldable pub may_be_reward : WalletContext → ℕ → RawTokenTransfer → Work → Bool
may_be_reward ctx token_id t w =
    not (has t w.claims)
    && (is_erc20_of w.session token_id t
        && (text_of t.to == ctx.wallet_address
            && (not (text_of t.sender == zero_addr)
                && not (is_tracked_wallet ctx (text_of t.sender)))))

unfoldable pub reward_of :
    TxBundle → WalletContext → ℕ → RawTokenTransfer → Option L2DecoderConfig → Work → Work
reward_of b ctx token_id t none w = emit (parked_event w.session token_id t) (claim t w)
reward_of b ctx token_id t (some cfg) w = elim cfg.staking_contract [
  | none ↦
      let s = propose_staking_contract token_id (text_of t.sender) w.session in
      emit (parked_event s token_id t) (claim t (record w { session = s }))
  | some staking ↦
      if staking == text_of t.sender
      then emit (reward_event b ctx w.session cfg token_id t) (claim t w)
      else w
]

-- `_detect_reward`. The configuration is the session's object, so each round sees what the one
-- before has proposed.
unfoldable pub reward_step : TxBundle → WalletContext → ℕ → RawTokenTransfer → Work → Work
reward_step b ctx token_id t w =
    if may_be_reward ctx token_id t w
    then reward_of b ctx token_id t (config_for w.session token_id) w
    else w

abbrev pub piece_event : (kind : ClassifiedEvent) → ℕ → RawTokenTransfer → ClassifiedEvent
piece_event kind token_id t = record kind {
  contract_address = t.contract_address;
  token_id = some token_id;
  amount = one_piece;
  order_hint = index (pos t.log_index);
}

abbrev plain : ClassifiedEvent
plain = record {
  classification = stake;
  contract_address = zero_addr;
  token_id = none;
  amount = one_piece;
  value_usd_at_event = none;
  needs_review = false;
  notes = none;
  order_hint = index (pos 0);
}

unfoldable pub stake_event : ℕ → RawTokenTransfer → ClassifiedEvent
stake_event token_id t = piece_event plain token_id t

unfoldable pub unstake_event : ℕ → RawTokenTransfer → ClassifiedEvent
unstake_event token_id t = piece_event (record plain { classification = unstake }) token_id t

unfoldable pub may_be_stake : WalletContext → ℕ → RawTokenTransfer → Work → Bool
may_be_stake ctx token_id t w =
    not (has t w.claims)
    && (is_nft_of w.session token_id t
        && (text_of t.sender == ctx.wallet_address && not (is_tracked_wallet ctx (text_of t.to))))

-- The two discoveries: a proposal changes nothing where the address is set.
unfoldable pub discover : ℕ → RawTokenTransfer → Session → Session
discover token_id t s =
    propose_nft_contract token_id t.contract_address
      (propose_staking_contract token_id (text_of t.to) s)

-- `_detect_stake`
unfoldable pub stake_step : WalletContext → ℕ → RawTokenTransfer → Work → Work
stake_step ctx token_id t w =
    if may_be_stake ctx token_id t w
    then emit (stake_event token_id t)
        (claim t (record w { session = discover token_id t w.session }))
    else w

unfoldable pub is_unstake : WalletContext → ℕ → RawTokenTransfer → Work → Bool
is_unstake ctx token_id t w =
    let staking = staking_of (config_for w.session token_id) in
    not (has t w.claims)
    && (is_nft_of w.session token_id t
        && (text_of t.to == ctx.wallet_address
            && (is_set staking && text_of staking == text_of t.sender)))

-- `_detect_unstake`
unfoldable pub unstake_step : WalletContext → ℕ → RawTokenTransfer → Work → Work
unstake_step ctx token_id t w =
    if is_unstake ctx token_id t w then emit (unstake_event token_id t) (claim t w) else w

-- `_derive_native_fee`
unfoldable pub derive_native_fee : TxBundle → ℕ
derive_native_fee b = elim b.envelope [ none ↦ 0 | some e ↦ e.value + e.gas_used * e.gas_price ]

unfoldable pub mint_fee : Session → TxBundle → ℕ → ℕ
mint_fee s b token_id = elim (config_for s token_id) [
  | none ↦ derive_native_fee b
  | some cfg ↦ elim cfg.mint_fee_wei [ none ↦ derive_native_fee b | some fee ↦ fee ]
]

-- A fee in dollars, at the price of the token at the zero address.
unfoldable pub fee_usd : Session → TxBundle → WalletContext → ℕ → Option Decimal
fee_usd s b ctx fee_wei = elim (registry_by_address s ctx zero_addr) [
  | none ↦ none
  | some lemx ↦ elim (ctx.price b.chain lemx.id b.occurred_at) [
    | none ↦ none
    | some price ↦ some (mul (from_token_units fee_wei lemx.decimals) price)
  ]
]

-- `_mint_fee_usd`
unfoldable pub mint_fee_usd : Session → TxBundle → WalletContext → ℕ → Option ℤ
mint_fee_usd s b ctx token_id =
    let fee_wei = mint_fee s b token_id in
    if fee_wei == 0 then some (pos 0) else to_column? (fee_usd s b ctx fee_wei)

abbrev pub is_known_status : ContractStatus → Bool
is_known_status status_unknown = false
is_known_status _ = true

-- The guard of `_detect_mint`: the address of the NFT contract, if it is known.
unfoldable pub mint_contract_of : Session → ℕ → Option ℕ
mint_contract_of s token_id = elim (config_for s token_id) [
  | none ↦ none
  | some cfg ↦
      if is_set cfg.nft_contract && is_known_status cfg.nft_contract_status
      then cfg.nft_contract
      else none
]

abbrev pub is_mint_transfer : WalletContext → ℕ → RawTokenTransfer → Bool
is_mint_transfer ctx nft t =
    t.contract_address == nft
    && (text_of t.sender == zero_addr && text_of t.to == ctx.wallet_address)

unfoldable pub mint_event : ℕ → Option ℤ → RawTokenTransfer → ClassifiedEvent
mint_event token_id value t =
    piece_event
      (record plain {
        classification = mint;
        value_usd_at_event = value;
        needs_review = not (is_some value);
      })
      token_id t

unfoldable pub mint_step : TxBundle → WalletContext → ℕ → ℕ → RawTokenTransfer → Work → Work
mint_step b ctx token_id nft t w =
    if not (has t w.claims) && (is_nft_of w.session token_id t && is_mint_transfer ctx nft t)
    then emit (mint_event token_id (mint_fee_usd w.session b ctx token_id) t) (claim t w)
    else w

-- `_detect_mint`
unfoldable pub detect_mint : TxBundle → WalletContext → ℕ → Work → Work
detect_mint b ctx token_id w = elim (mint_contract_of w.session token_id) [
  | none ↦ w
  | some nft ↦ each (mint_step b ctx token_id nft) b.transfers w
]

-- `L2Decoder.decode`
unfoldable pub decode_base : TxBundle → WalletContext → ℕ → Work → Work
decode_base b ctx token_id w =
    let rewards = each (reward_step b ctx token_id) b.transfers w in
    let stakes = each (stake_step ctx token_id) b.transfers rewards in
    let unstakes = each (unstake_step ctx token_id) b.transfers stakes in
    detect_mint b ctx token_id unstakes
