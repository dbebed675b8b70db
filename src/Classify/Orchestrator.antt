-- ===== src/Classify/Orchestrator.antt =====
-- classify/orchestrator.py: one bundle from the recognizers to the rows that replace the old ones.
pub mod Claims
pub mod Replace
pub mod Untokened
use Prim.Native.Nat.{Ordering}
use Prim.Native.String.{compare as compare_text}
use lemon_ledger.Prelude.{
  ℕ, suc, ◌+◌, ltb, ltb_ℤ, ◌==◌, get_or, if◌then◌else◌, Bool, true, false, ◌&&◌, ◌||◌, not, pos,
  Option, none, some, List, [], ◌∷◌, ◌++◌, filter, any, sorted, ok, err, Result, ◌>>=◌,
}
use lemon_ledger.Models.{
  Session, ClassifiedTransaction, ClassificationKind, mint, stake, unstake, reward, wrap, unwrap,
  swap_credit_redemption, burn, transfer_in, transfer_out, pending_kind, unclassified,
  RawTransaction, RawTokenTransfer, RawInternalTx, DecoderClass, lqst_decoder, thin_decoder,
  unregistered_decoder,
}
use lemon_ledger.Classify.Types.{
  TxBundle, ClassifiedEvent, ClassifyError, type_error, Hint, index, text, Work, has, claim, emit,
  text_of, token_units, zero_addr, one_piece, native_hint,
}
use lemon_ledger.Classify.Context.{
  WalletContext, DecoderInstance, decoders_for_bundle, is_confirmed_burn_address,
  registry_by_address, config_for,
}
use lemon_ledger.Classify.Recognizers.{recognize_wrap, recognize_redemption}
use lemon_ledger.Classify.Decoders.{each, decode_base}
use lemon_ledger.Classify.Lqst.{decode_lqst}

-- `_KIND_PRIORITY`
abbrev pub kind_priority : ClassificationKind → ℕ
kind_priority mint = 0
kind_priority stake = 1
kind_priority unstake = 2
kind_priority reward = 3
kind_priority wrap = 4
kind_priority unwrap = 5
kind_priority swap_credit_redemption = 6
kind_priority burn = 7
kind_priority transfer_in = 8
kind_priority transfer_out = 9
kind_priority pending_kind = 10
kind_priority unclassified = 11
kind_priority _ = 99

-- `_token_amount`
unfoldable pub token_amount : RawTokenTransfer → ℕ
token_amount t = token_units t.value (get_or t.token_decimal 18)

-- `_is_deflationary_in_config`
unfoldable pub is_deflationary : Session → WalletContext → ℕ → Bool
is_deflationary s ctx contract = elim (registry_by_address s ctx contract) [
  | none ↦ false
  | some row ↦ elim (config_for s row.id) [ none ↦ false | some cfg ↦ cfg.deflationary ]
]

unfoldable pub is_burn_transfer : Session → WalletContext → RawTokenTransfer → Bool
is_burn_transfer s ctx t =
    not t.has_token_id
    && (is_confirmed_burn_address s (text_of t.to) && is_deflationary s ctx t.contract_address)

-- The kind of a transfer that nothing claimed, where it is one of the wallet.
unfoldable pub common_kind : Session → WalletContext → RawTokenTransfer → Option ClassificationKind
common_kind s ctx t =
    if text_of t.to == ctx.wallet_address
    then some transfer_in
    else if text_of t.sender == ctx.wallet_address
    then some (if is_burn_transfer s ctx t then burn else transfer_out)
    else none

abbrev pub common_event : ClassificationKind → ℕ → ℕ → Hint → ClassifiedEvent
common_event kind contract amount hint = record {
  classification = kind;
  contract_address = contract;
  token_id = none;
  amount = amount;
  value_usd_at_event = none;
  needs_review = false;
  notes = none;
  order_hint = hint;
}

unfoldable pub transfer_event : ClassificationKind → RawTokenTransfer → ClassifiedEvent
transfer_event kind t =
    common_event kind t.contract_address (if t.has_token_id then one_piece else token_amount t)
      (index (pos t.log_index))

unfoldable pub common_step : WalletContext → RawTokenTransfer → Work → Work
common_step ctx t w = if has t w.claims then w else elim (common_kind w.session ctx t) [
  | none ↦ w
  | some kind ↦ claim t (emit (transfer_event kind t) w)
]

-- The event of a native value, of an envelope or of an internal transaction.
unfoldable pub native_step : WalletContext → Option ℕ → Option ℕ → ℕ → Work → Work
native_step ctx to sender value w =
    if value == 0
    then w
    else if text_of to == ctx.wallet_address
    then emit (common_event transfer_in zero_addr (token_units value 18) native_hint) w
    else if text_of sender == ctx.wallet_address
    then emit (common_event transfer_out zero_addr (token_units value 18) native_hint) w
    else w

unfoldable pub envelope_step : WalletContext → Option RawTransaction → Work → Work
envelope_step ctx none w = w
envelope_step ctx (some e) w = native_step ctx e.to e.sender e.value w

unfoldable pub internal_steps : WalletContext → List RawInternalTx → Work → Work
internal_steps ctx [] w = w
internal_steps ctx (i ∷ is) w = internal_steps ctx is (native_step ctx i.to i.sender i.value w)

unfoldable pub common_transfer_events : TxBundle → WalletContext → Work → Work
common_transfer_events b ctx w =
    internal_steps ctx b.internals
      (envelope_step ctx b.envelope (each (common_step ctx) b.transfers w))

unfoldable pub decode_with : TxBundle → WalletContext → DecoderClass → ℕ → Work → Work
decode_with b ctx lqst_decoder token_id w = decode_lqst b ctx token_id w
decode_with b ctx (thin_decoder n) token_id w = decode_base b ctx token_id w
decode_with b ctx (unregistered_decoder n) token_id w = w

unfoldable pub decode_all : TxBundle → WalletContext → List DecoderInstance → Work → Work
decode_all b ctx [] w = w
decode_all b ctx (d ∷ ds) w = decode_all b ctx ds (decode_with b ctx d.class_name d.token_id w)

-- The events of a bundle: recognizers, decoders, and the layer for what is left.
unfoldable pub bundle_events : TxBundle → WalletContext → Session → Work
bundle_events b ctx s =
    let start : Work = record { session = s; claims = []; events = [] } in
    let recognized = recognize_redemption b ctx (recognize_wrap b ctx start) in
    let decoders = decoders_for_bundle recognized.session ctx b in
    common_transfer_events b ctx (decode_all b ctx decoders recognized)

abbrev pub is_text : Hint → Bool
is_text (text raw) = true
is_text (index i) = false

-- The comparison of two hints of one type, an equal one being decided by `ties`.
abbrev pub text_before : Ordering → Bool → Bool
text_before Ordering.lt ties = true
text_before Ordering.eq ties = ties
text_before Ordering.gt ties = false

abbrev pub hint_before : Hint → Hint → Bool → Bool
hint_before (index a) (index b) ties = ltb_ℤ a b || (not (ltb_ℤ b a) && ties)
hint_before (text a) (text b) ties = text_before (compare_text a b) ties
hint_before _ _ ties = false

abbrev pub sequence_order : ClassifiedEvent → ClassifiedEvent → Bool
sequence_order a b =
    hint_before a.order_hint b.order_hint
      (ltb (kind_priority a.classification) (kind_priority b.classification))

-- Python compares an int with a text nowhere: a list that has both raises TypeError when it is
-- sorted, since some comparison meets the two.
unfoldable pub is_mixed : List ClassifiedEvent → Bool
is_mixed events =
    any (λ e. is_text e.order_hint) events && any (λ e. not (is_text e.order_hint)) events

unfoldable pub row_of : Session → TxBundle → ℕ → ClassifiedEvent → ClassifiedTransaction
row_of s b seq event = record {
  id = s.runtime.uuid7 (s.drawn + seq);
  wallet_id = b.wallet_id;
  chain = b.chain;
  tx_hash = b.tx_hash;
  event_seq = seq;
  block_number = b.block_number;
  occurred_at = b.occurred_at;
  classification = event.classification;
  token_id = event.token_id;
  contract_address = event.contract_address;
  amount = event.amount;
  value_usd_at_event = event.value_usd_at_event;
  needs_review = event.needs_review;
  manual_override = false;
  bridge_correlation_id = none;
  relocation_source_event_id = none;
  transfer_resolution = none;
  notes = event.notes;
}

-- `enumerate(sorted_events)`
unfoldable pub number_from :
    Session → TxBundle → ℕ → List ClassifiedEvent → List ClassifiedTransaction
number_from s b seq [] = []
number_from s b seq (e ∷ es) = row_of s b seq e ∷ number_from s b (suc seq) es

unfoldable pub assign_event_seq :
    Session → TxBundle → List ClassifiedEvent → Result ClassifyError (List ClassifiedTransaction)
assign_event_seq s b events =
    if is_mixed events
    then err type_error
    else ok (number_from s b 0 (sorted sequence_order events))

-- The session with the configurations that the decoders found, and the rows.
unfoldable pub classify_bundle :
    TxBundle → WalletContext → Session → Result ClassifyError (Session × List ClassifiedTransaction)
classify_bundle b ctx s =
    let done = bundle_events b ctx s in
    assign_event_seq done.session b done.events >>= λ rows. ok (done.session, rows)

abbrev pub is_of_tx : ℕ → ℕ → ClassifiedTransaction → Bool
is_of_tx wallet_id tx_hash e = e.wallet_id == wallet_id && e.tx_hash == tx_hash

-- The transaction has a row that was overridden by hand.
unfoldable pub is_pinned : ℕ → ℕ → Session → Bool
is_pinned wallet_id tx_hash s =
    any (λ e. is_of_tx wallet_id tx_hash e && e.manual_override) s.events

abbrev pub count_rows : List ClassifiedTransaction → ℕ
count_rows [] = 0
count_rows (e ∷ es) = suc (count_rows es)

unfoldable pub replace_classified : ℕ → ℕ → List ClassifiedTransaction → Session → Session
replace_classified wallet_id tx_hash rows s =
    if is_pinned wallet_id tx_hash s then s else record s {
      events =
          filter (λ e. not (is_of_tx wallet_id tx_hash e && not e.manual_override)) s.events
          ++ rows;
      drawn = s.drawn + count_rows rows;
    }
