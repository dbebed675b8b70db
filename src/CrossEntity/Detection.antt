-- ===== src/CrossEntity/Detection.antt =====
-- `detect_for_user` of domain/cross_entity/detection.py: the pass that finds the counterparty of
-- every transfer out of a user's wallets.
pub mod Pendings
pub mod Stamps
use lemon_ledger.Prelude.{
  ℕ, ◌+◌, ◌*◌, ltb, leb, ◌==◌, is_some, if◌then◌else◌, Bool, true, false, ◌&&◌, not, Option, none,
  some, String, List, [], ◌∷◌, ◌++◌, map, find, filter, any, sorted, Result, ok, err, ◌>>=◌,
}
use lemon_ledger.Models.{
  Session, Chain, same_chain, ClassifiedTransaction, ClassificationKind, transfer_out, transfer_in,
  bridge_in, TransferResolution, relocate_internal, Wallet, WalletEntityAssignment,
  PendingClassification, PendingClassificationKind, cross_entity, external_outflow,
  needs_classification, TransferKey, set_event, get_asset, get_token, RawTokenTransfer,
}

-- NoEntityAssignment.
pub data DetectionError : Type 0 where
  no_entity_assignment : ℕ → ℕ → DetectionError

abbrev pub make_logical_transfer_key : Chain → ℕ → ℕ → ℕ → TransferKey
make_logical_transfer_key chain tx_hash wallet_id event_seq = record {
  chain = chain;
  tx_hash = tx_hash;
  wallet_id = wallet_id;
  event_seq = event_seq;
}

abbrev pub same_key : TransferKey → TransferKey → Bool
same_key a b =
    same_chain a.chain b.chain
    && (a.tx_hash == b.tx_hash && (a.wallet_id == b.wallet_id && a.event_seq == b.event_seq))

-- The moment at which a date begins in UTC.
abbrev pub midnight : ℕ → ℕ
midnight day = day * 86_400_000_000

-- effective_from ≤ tx_ts < effective_to, where no end is open.
abbrev pub covers_at : ℕ → ℕ → WalletEntityAssignment → Bool
covers_at wallet_id tx_ts a =
    a.wallet_id == wallet_id
    && (leb (midnight a.effective_from) tx_ts && elim a.effective_to [
      | none ↦ true
      | some effective_to ↦ ltb tx_ts (midnight effective_to)
    ])

unfoldable pub resolve_entity_at : Session → ℕ → ℕ → Result DetectionError WalletEntityAssignment
resolve_entity_at s wallet_id tx_ts =
    elim (sorted (λ a b. ltb b.effective_from a.effective_from)
      (filter (covers_at wallet_id tx_ts) s.assignments)) [
        | [] ↦ err (no_entity_assignment wallet_id tx_ts)
        | row ∷ rows ↦ ok row
      ]

abbrev pub one_of : ℕ → List ℕ → Bool
one_of k ks = any (λ j. j == k) ks

abbrev pub is_arrival : ClassificationKind → Bool
is_arrival transfer_in = true
is_arrival bridge_in = true
is_arrival _ = false

-- The WHERE clause of `_find_own_inflow`.
abbrev pub is_own_inflow : ClassifiedTransaction → List ℕ → ClassifiedTransaction → Bool
is_own_inflow outflow_ct wallet_ids e =
    one_of e.wallet_id wallet_ids
    && (not (e.wallet_id == outflow_ct.wallet_id)
        && (e.tx_hash == outflow_ct.tx_hash
            && (same_chain e.chain outflow_ct.chain
                && (e.contract_address == outflow_ct.contract_address
                    && is_arrival e.classification))))

unfoldable pub find_own_inflow :
    Session → ClassifiedTransaction → List ℕ → Option ClassifiedTransaction
find_own_inflow s outflow_ct wallet_ids = find (is_own_inflow outflow_ct wallet_ids) s.events

abbrev pub is_raw_of : ClassifiedTransaction → RawTokenTransfer → Bool
is_raw_of ct raw =
    raw.wallet_id == ct.wallet_id
    && (raw.tx_hash == ct.tx_hash && raw.contract_address == ct.contract_address)

unfoldable pub raw_to_address : Session → ClassifiedTransaction → Option ℕ
raw_to_address s ct = elim (find (is_raw_of ct) s.raw_transfers) [ none ↦ none | some raw ↦ raw.to ]

abbrev token_symbol : Session → ℕ → String
token_symbol s token_id = elim (get_token s token_id) [
  | none ↦ "UNKNOWN"
  | some token ↦ token.symbol
]

unfoldable pub canonical_asset : Session → Option ℕ → String
canonical_asset s none = "UNKNOWN"
canonical_asset s (some token_id) = elim (find (λ m. m.token_id == token_id) s.memberships) [
  | none ↦ token_symbol s token_id
  | some membership ↦ elim (get_asset s membership.logical_asset_id) [
    | none ↦ token_symbol s token_id
    | some asset ↦ asset.symbol
  ]
]

-- The counterparty of a new pending row.
pub record Counterparty : Type 0 where
  pub kind : PendingClassificationKind
  pub to_wallet_id : Option ℕ
  pub to_entity_id : Option ℕ
  pub to_address : Option ℕ

abbrev pub key_of : ClassifiedTransaction → TransferKey
key_of ct = make_logical_transfer_key ct.chain ct.tx_hash ct.wallet_id ct.event_seq

-- The row that is inserted, with the defaults of its columns.
abbrev pub new_pending :
    Session → ℕ → ClassifiedTransaction → ℕ → ℕ → Counterparty → PendingClassification
new_pending s user_id ct token_id from_entity_id party = record {
  id = s.runtime.uuid7 s.drawn;
  user_id = user_id;
  kind = party.kind;
  logical_transfer_key = key_of ct;
  chain = ct.chain;
  tx_hash = ct.tx_hash;
  transfer_index = ct.event_seq;
  token_id = token_id;
  canonical_asset = canonical_asset s ct.token_id;
  amount = ct.amount;
  from_wallet_id = ct.wallet_id;
  from_entity_id = from_entity_id;
  to_wallet_id = party.to_wallet_id;
  to_entity_id = party.to_entity_id;
  to_address = party.to_address;
  state = needs_classification;
  chosen_classification = none;
  resolved_by = none;
  resolved_rule_id = none;
  dismiss_reason = none;
  note = none;
  detected_at = s.runtime.now;
  resolved_at = none;
}

-- The state of the loop: the session and the two counters.
pub record Detected : Type 0 where
  pub session : Session
  pub auto_resolved : ℕ
  pub pending_created : ℕ

abbrev pub insert_pending : PendingClassification → Detected → Detected
insert_pending pc d = record d {
  session = record d.session {
    pendings = d.session.pendings ++ (pc ∷ []);
    drawn = d.session.drawn + 1;
  };
  pending_created = d.pending_created + 1;
}

-- `_write_pending_if_absent`, and the count of what it creates.
unfoldable pub write_pending_if_absent :
    ℕ → ClassifiedTransaction → ℕ → Counterparty → Detected → Detected
write_pending_if_absent user_id ct from_entity_id party d =
    if is_some (find (λ p. same_key p.logical_transfer_key (key_of ct)) d.session.pendings)
    then d
    else elim ct.token_id [
      | none ↦ d
      | some token_id ↦
          insert_pending (new_pending d.session user_id ct token_id from_entity_id party) d
    ]

abbrev pub stamp_outflow : ClassifiedTransaction → ClassifiedTransaction
stamp_outflow e = record e { transfer_resolution = some relocate_internal }

abbrev pub stamp_own_inflow : ℕ → ClassifiedTransaction → ClassifiedTransaction
stamp_own_inflow source e = record e {
  transfer_resolution = some relocate_internal;
  relocation_source_event_id = some source;
}

-- Branches 1 and 2, for the entities of the two wallets.
unfoldable pub own_transfer :
    ℕ → ClassifiedTransaction → ClassifiedTransaction → ℕ → ℕ → Detected → Detected
own_transfer user_id ct inflow_ct from_entity_id to_entity_id d =
    if from_entity_id == to_entity_id
    then record d {
      session =
          set_event inflow_ct.id (stamp_own_inflow ct.id) (set_event ct.id stamp_outflow d.session);
      auto_resolved = d.auto_resolved + 1;
    }
    else write_pending_if_absent user_id ct from_entity_id
        (record {
          kind = cross_entity;
          to_wallet_id = some inflow_ct.wallet_id;
          to_entity_id = some to_entity_id;
          to_address = none;
        })
        d

-- Branches 1 and 2: a wallet without an entity at the time is skipped.
unfoldable pub own_branch : ℕ → ClassifiedTransaction → ClassifiedTransaction → Detected → Detected
own_branch user_id ct inflow_ct d = elim (resolve_entity_at d.session ct.wallet_id ct.occurred_at) [
  | err raised ↦ d
  | ok from_asgn ↦ elim (resolve_entity_at d.session inflow_ct.wallet_id ct.occurred_at) [
    | err raised ↦ d
    | ok to_asgn ↦ own_transfer user_id ct inflow_ct from_asgn.entity_id to_asgn.entity_id d
  ]
]

abbrev pub is_own_address : List ℕ → Option ℕ → Bool
is_own_address own_addresses none = false
is_own_address own_addresses (some address) = one_of address own_addresses

-- Branches 3 and 4.
unfoldable pub external_branch : ℕ → List ℕ → ClassifiedTransaction → Detected → Detected
external_branch user_id own_addresses ct d =
    let to_addr = raw_to_address d.session ct in
    if is_own_address own_addresses to_addr
    then d
    else elim (resolve_entity_at d.session ct.wallet_id ct.occurred_at) [
      | err raised ↦ d
      | ok from_asgn ↦
          write_pending_if_absent user_id ct from_asgn.entity_id
            (record {
              kind = external_outflow;
              to_wallet_id = none;
              to_entity_id = none;
              to_address = to_addr;
            })
            d
    ]

-- One round of the loop.
unfoldable pub detect_one : ℕ → List ℕ → List ℕ → ClassifiedTransaction → Detected → Detected
detect_one user_id wallet_ids own_addresses ct d = elim (find_own_inflow d.session ct wallet_ids) [
  | some inflow_ct ↦ own_branch user_id ct inflow_ct d
  | none ↦ external_branch user_id own_addresses ct d
]

unfoldable pub detect_loop : ℕ → List ℕ → List ℕ → List ClassifiedTransaction → Detected → Detected
detect_loop user_id wallet_ids own_addresses [] d = d
detect_loop user_id wallet_ids own_addresses (ct ∷ cts) d =
    detect_loop user_id wallet_ids own_addresses cts
      (detect_one user_id wallet_ids own_addresses ct d)

abbrev pub is_transfer_out : ClassificationKind → Bool
is_transfer_out transfer_out = true
is_transfer_out _ = false

abbrev pub since_or_later : Option ℕ → ClassifiedTransaction → Bool
since_or_later none ct = true
since_or_later (some since) ct = leb since ct.occurred_at

-- The query for the outflows.
unfoldable pub outflow_cts : Session → List ℕ → Option ℕ → List ClassifiedTransaction
outflow_cts s wallet_ids since =
    filter
      (λ e.
        one_of e.wallet_id wallet_ids
        && (is_transfer_out e.classification
            && (not (is_some e.transfer_resolution) && since_or_later since e)))
      s.events

-- The user's active wallets, of which there may be none.
unfoldable pub detect_wallets : Session → ℕ → Option ℕ → List Wallet → Detected
detect_wallets s user_id since [] = record { session = s; auto_resolved = 0; pending_created = 0 }
detect_wallets s user_id since (w ∷ ws) =
    let wallet_ids = map (λ x. x.id) (w ∷ ws) in
    let own_addresses = map (λ x. x.address) (w ∷ ws) in
    detect_loop user_id wallet_ids own_addresses (outflow_cts s wallet_ids since)
      (record { session = s; auto_resolved = 0; pending_created = 0 })

unfoldable pub detect_for_user : Session → ℕ → Option ℕ → Detected
detect_for_user s user_id since =
    detect_wallets s user_id since (filter (λ w. w.user_id == user_id && w.is_active) s.wallets)
