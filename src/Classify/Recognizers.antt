-- ===== src/Classify/Recognizers.antt =====
-- classify/recognizers.py: wraps, unwraps and redemptions of swap credits.
use lemon_ledger.Prelude.{
  ℕ, pos, ◌==◌, is_some, if◌then◌else◌, Bool, false, ◌&&◌, not, Option, none, some, String, List,
  [], ◌∷◌, find, filter, length,
}
use lemon_ledger.Models.{
  RawTransaction, RawTokenTransfer, Selector, deposit, withdraw, no_wrap_selector, wrap, unwrap,
  swap_credit_redemption, TokenRegistry,
}
use lemon_ledger.Classify.Types.{
  TxBundle, ClassifiedEvent, Work, has, claim, emit, text_of, token_units, zero_addr, native_hint,
  one_piece, index, to_column?,
}
use lemon_ledger.Classify.Context.{WalletContext, registry_by_symbol, is_set}

-- The address of the token with the symbol, where it has one.
abbrev pub contract_of : Option TokenRegistry → Option ℕ
contract_of none = none
contract_of (some row) = if is_set row.contract_address then row.contract_address else none

abbrev pub is_wrap_transfer : WalletContext → ℕ → RawTokenTransfer → Bool
is_wrap_transfer ctx wlemx t =
    t.contract_address == wlemx
    && (text_of t.sender == zero_addr && text_of t.to == ctx.wallet_address)

abbrev pub is_unwrap_transfer : WalletContext → ℕ → RawTokenTransfer → Bool
is_unwrap_transfer ctx wlemx t =
    t.contract_address == wlemx
    && (text_of t.sender == ctx.wallet_address && text_of t.to == zero_addr)

unfoldable pub claim_all : (RawTokenTransfer → Bool) → List RawTokenTransfer → Work → Work
claim_all p [] w = w
claim_all p (t ∷ ts) w =
    let next = if not (has t w.claims) && p t then claim t w else w in claim_all p ts next

abbrev pub wrap_event : ℕ → ℕ → ClassifiedEvent
wrap_event wlemx amount = record {
  classification = wrap;
  contract_address = wlemx;
  token_id = none;
  amount = amount;
  value_usd_at_event = none;
  needs_review = false;
  notes = some "wrap: native LEMX → WLEMX; tax-neutral";
  order_hint = native_hint;
}

abbrev pub unwrap_event : ℕ → ℕ → ClassifiedEvent
unwrap_event wlemx amount = record {
  classification = unwrap;
  contract_address = wlemx;
  token_id = none;
  amount = amount;
  value_usd_at_event = none;
  needs_review = false;
  notes = some "unwrap: WLEMX → native LEMX; tax-neutral";
  order_hint = native_hint;
}

unfoldable pub recognize_deposit : TxBundle → WalletContext → ℕ → RawTransaction → Work → Work
recognize_deposit b ctx wlemx envelope w =
    if envelope.value == 0
    then w
    else emit (wrap_event wlemx (token_units envelope.value 18))
        (claim_all (is_wrap_transfer ctx wlemx) b.transfers w)

unfoldable pub recognize_withdraw : TxBundle → WalletContext → ℕ → Work → Work
recognize_withdraw b ctx wlemx w =
    elim (find (λ t. not (has t w.claims) && is_unwrap_transfer ctx wlemx t) b.transfers) [
      | none ↦ w
      | some t ↦ emit (unwrap_event wlemx (token_units t.value 18)) (claim t w)
    ]

unfoldable pub recognize_selector :
    TxBundle → WalletContext → ℕ → RawTransaction → Selector → Work → Work
recognize_selector b ctx wlemx envelope deposit w = recognize_deposit b ctx wlemx envelope w
recognize_selector b ctx wlemx envelope withdraw w = recognize_withdraw b ctx wlemx w
recognize_selector b ctx wlemx envelope no_wrap_selector w = w

-- WrapRecognizer.recognize
unfoldable pub recognize_wrap : TxBundle → WalletContext → Work → Work
recognize_wrap b ctx w = elim b.envelope [
  | none ↦ w
  | some envelope ↦ elim (contract_of (registry_by_symbol w.session ctx "WLEMX")) [
    | none ↦ w
    | some wlemx ↦
        if text_of envelope.to == wlemx
        then recognize_selector b ctx wlemx envelope envelope.selector w
        else w
  ]
]

abbrev pub is_credit_out : WalletContext → ℕ → List ℕ → RawTokenTransfer → Bool
is_credit_out ctx scdt claims t =
    not (has t claims)
    && (t.contract_address == scdt && (t.has_token_id && text_of t.sender == ctx.wallet_address))

abbrev pub is_nft_in : WalletContext → ℕ → List ℕ → RawTokenTransfer → Bool
is_nft_in ctx scdt claims t =
    not (has t claims)
    && (t.has_token_id && (text_of t.to == ctx.wallet_address && not (t.contract_address == scdt)))

abbrev pub redemption_event :
    WalletContext → TxBundle → ℕ → String → RawTokenTransfer → ClassifiedEvent
redemption_event ctx b scdt_token memo t =
    let fmv = ctx.price b.chain scdt_token b.occurred_at in
    record {
      classification = swap_credit_redemption;
      contract_address = t.contract_address;
      token_id = none;
      amount = one_piece;
      value_usd_at_event = to_column? fmv;
      needs_review = not (is_some fmv);
      notes = some memo;
      order_hint = index (pos t.log_index);
    }

-- A loop that claims each of its transfers and emits an event for it.
unfoldable pub take_all : (RawTokenTransfer → ClassifiedEvent) → List RawTokenTransfer → Work → Work
take_all event [] w = w
take_all event (t ∷ ts) w = take_all event ts (emit (event t) (claim t w))

abbrev redeem :
    TxBundle → WalletContext → ℕ → List RawTokenTransfer → List RawTokenTransfer → Work → Work
redeem b ctx token_id scdt_out nft_in w =
    take_all (redemption_event ctx b token_id "l2-nft-in: acquired via SCDT redemption") nft_in
      (take_all (redemption_event ctx b token_id "scdt-out: SCDT NFT redeemed") scdt_out w)

-- SwapCreditRedemptionRecognizer.recognize, with the row of SCDT and its address.
unfoldable pub redeem_credits : TxBundle → WalletContext → TokenRegistry → ℕ → Work → Work
redeem_credits b ctx row scdt w =
    let scdt_out = filter (is_credit_out ctx scdt w.claims) b.transfers in
    let nft_in = filter (is_nft_in ctx scdt w.claims) b.transfers in
    if length scdt_out == 0
    then w
    else if length nft_in == length scdt_out
    then redeem b ctx row.id scdt_out nft_in w
    else w

unfoldable pub recognize_redemption : TxBundle → WalletContext → Work → Work
recognize_redemption b ctx w = elim (registry_by_symbol w.session ctx "SCDT") [
  | none ↦ w
  | some row ↦ elim (contract_of (some row)) [
    | none ↦ w
    | some scdt ↦ redeem_credits b ctx row scdt w
  ]
]
