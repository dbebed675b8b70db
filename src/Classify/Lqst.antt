-- ===== src/Classify/Lqst.antt =====
-- LqstDecoder of classify/decoders/lemonchain_only.py, which only detects mints.
use lemon_ledger.Prelude.{
  ℕ, pos, ltb, ◌==◌, is_some, if◌then◌else◌, Bool, true, ◌&&◌, not, Option, none, some, find,
}
use lemon_ledger.Models.{Session, RawTransaction, RawTokenTransfer, pending_kind, mint}
use lemon_ledger.Classify.Types.{
  TxBundle, ClassifiedEvent, Work, Hint, has, claim, emit, text_of, to_column?, zero_addr,
  one_piece, index, text,
}
use lemon_ledger.Classify.Context.{WalletContext, registry_by_address}
use lemon_ledger.Classify.Recognizers.{contract_of}
use lemon_ledger.Classify.Decoders.{each, fee_usd, mint_contract_of, is_mint_transfer}

-- `t.raw.get("logIndex", t.log_index)`
unfoldable pub hint_of : RawTokenTransfer → Hint
hint_of t = elim t.raw_log_index [ none ↦ index (pos t.log_index) | some raw ↦ text raw ]

-- The value of the envelope, if it is positive.
unfoldable pub envelope_fee : Option RawTransaction → Option ℕ
envelope_fee none = none
envelope_fee (some envelope) = if ltb 0 envelope.value then some envelope.value else none

abbrev pub pays_token : WalletContext → ℕ → RawTokenTransfer → Bool
pays_token ctx lemx t =
    t.contract_address == lemx
    && (text_of t.sender == ctx.wallet_address && (not t.has_token_id && ltb 0 t.value))

unfoldable pub token_fee : Session → TxBundle → WalletContext → Option ℕ
token_fee s b ctx = elim (contract_of (registry_by_address s ctx zero_addr)) [
  | none ↦ none
  | some lemx ↦ elim (find (pays_token ctx lemx) b.transfers) [
    | none ↦ none
    | some t ↦ some t.value
  ]
]

unfoldable pub internal_fee : TxBundle → WalletContext → Option ℕ
internal_fee b ctx =
    elim (find (λ i. text_of i.sender == ctx.wallet_address && ltb 0 i.value) b.internals) [
      | none ↦ none
      | some i ↦ some i.value
    ]

-- `_resolve_lqst_fee`: three sources in the order of their priority.
unfoldable pub resolve_lqst_fee : Session → TxBundle → WalletContext → Option ℕ
resolve_lqst_fee s b ctx = elim (envelope_fee b.envelope) [
  | some fee ↦ some fee
  | none ↦ elim (token_fee s b ctx) [ some fee ↦ some fee | none ↦ internal_fee b ctx ]
]

unfoldable pub unresolved_event : ℕ → RawTokenTransfer → ClassifiedEvent
unresolved_event token_id t = record {
  classification = pending_kind;
  contract_address = t.contract_address;
  token_id = some token_id;
  amount = one_piece;
  value_usd_at_event = none;
  needs_review = true;
  notes = some "lqst-mint: fee unresolved; basis pending operator input";
  order_hint = hint_of t;
}

unfoldable pub lqst_mint_event :
    Session → TxBundle → WalletContext → ℕ → ℕ → RawTokenTransfer → ClassifiedEvent
lqst_mint_event s b ctx token_id fee t =
    let value = to_column? (fee_usd s b ctx fee) in
    record {
      classification = mint;
      contract_address = t.contract_address;
      token_id = some token_id;
      amount = one_piece;
      value_usd_at_event = value;
      needs_review = not (is_some value);
      notes = some "collectible; basis=fee+gas; see 1.7 tax_lots.asset_class";
      order_hint = hint_of t;
    }

unfoldable pub lqst_event :
    Session → TxBundle → WalletContext → ℕ → RawTokenTransfer → ClassifiedEvent
lqst_event s b ctx token_id t = elim (resolve_lqst_fee s b ctx) [
  | none ↦ unresolved_event token_id t
  | some fee ↦ lqst_mint_event s b ctx token_id fee t
]

unfoldable pub lqst_step : TxBundle → WalletContext → ℕ → ℕ → RawTokenTransfer → Work → Work
lqst_step b ctx token_id nft t w =
    if not (has t w.claims) && (t.has_token_id && is_mint_transfer ctx nft t)
    then emit (lqst_event w.session b ctx token_id t) (claim t w)
    else w

unfoldable pub decode_lqst : TxBundle → WalletContext → ℕ → Work → Work
decode_lqst b ctx token_id w = elim (mint_contract_of w.session token_id) [
  | none ↦ w
  | some nft ↦ each (lqst_step b ctx token_id nft) b.transfers w
]
