-- ===== src/CrossEntity/Resolve.antt =====
-- domain/cross_entity/resolve.py: the state machine of pending_classifications and the signals
-- that it stamps onto the legs of a transfer.
pub mod Signals
pub mod Outcomes
pub mod Reclassified
use text.Mathlib.Text.{◌==◌ as str_eq}
use lemon_ledger.Prelude.{
  ℕ, ◌==◌, is_some, if◌then◌else◌, Bool, true, false, ◌&&◌, not, Option, none, some, String, [],
  ◌∷◌, ◌++◌, find, update, Result, ok, err, ◌>>=◌,
}
use lemon_ledger.Models.{
  Session, ClassifiedTransaction, ClassificationKind, transfer_in, bridge_in, same_chain,
  PendingClassification, PendingSnapshot, PendingClassificationKind, cross_entity, external_outflow,
  PendingClassificationState, classified, applied, dismissed, ChosenClassification,
  capital_contribution, sale, gift, loan, reassignment, payment, TransferResolution,
  relocate_contribution, relocate_gift, relocate_reassignment, disposal, disposal_related_party,
  gift_out, no_op_loan, ResolvedBy, by_user, by_rule, AuditAction, resolve_action,
  reclassify_action, dismiss_action, dismiss_redirect, ClassificationAuditLog, set_event,
}

-- InvalidChoice, InvalidState, UserResolvedGuard, and the ValueError of `_load`.
pub data ResolveError : Type 0 where
  invalid_choice invalid_state user_resolved_guard not_found : ResolveError

-- The text that a caller gives for a choice: a member of the enumeration, or another.
pub data Choice : Type 0 where
  member : ChosenClassification → Choice
  other : String → Choice

-- `ALLOWED`
abbrev pub is_allowed : PendingClassificationKind → ChosenClassification → Bool
is_allowed cross_entity capital_contribution = true
is_allowed cross_entity sale = true
is_allowed cross_entity gift = true
is_allowed cross_entity loan = true
is_allowed cross_entity reassignment = true
is_allowed cross_entity payment = false
is_allowed external_outflow sale = true
is_allowed external_outflow gift = true
is_allowed external_outflow payment = true
is_allowed external_outflow _ = false

-- `_OUTFLOW_RESOLUTION`, a dict: `none` where it has no key.
abbrev pub outflow_resolution :
    PendingClassificationKind → ChosenClassification → Option TransferResolution
outflow_resolution cross_entity capital_contribution = some relocate_contribution
outflow_resolution cross_entity reassignment = some relocate_reassignment
outflow_resolution cross_entity gift = some relocate_gift
outflow_resolution cross_entity sale = some disposal_related_party
outflow_resolution cross_entity loan = some no_op_loan
outflow_resolution external_outflow sale = some disposal
outflow_resolution external_outflow payment = some disposal
outflow_resolution external_outflow gift = some gift_out
outflow_resolution _ _ = none

-- `choice in _STAMP_INFLOW and pc.kind == "cross-entity"`
abbrev pub stamps_inflow : PendingClassificationKind → ChosenClassification → Bool
stamps_inflow cross_entity capital_contribution = true
stamps_inflow cross_entity reassignment = true
stamps_inflow cross_entity gift = true
stamps_inflow _ _ = false

unfoldable pub validate_choice :
    PendingClassificationKind → Choice → Result ResolveError ChosenClassification
validate_choice kind (member choice) =
    if is_allowed kind choice then ok choice else err invalid_choice
validate_choice kind (other text) = err invalid_choice

unfoldable pub load : Session → ℕ → Result ResolveError PendingClassification
load s pending_id = elim (find (λ p. p.id == pending_id) s.pendings) [
  | none ↦ err not_found
  | some pc ↦ ok pc
]

abbrev pub is_outflow_of : PendingClassification → ClassifiedTransaction → Bool
is_outflow_of pc e =
    e.wallet_id == pc.from_wallet_id
    && (e.tx_hash == pc.tx_hash && e.event_seq == pc.transfer_index)

unfoldable pub locate_outflow_ct : Session → PendingClassification → Option ClassifiedTransaction
locate_outflow_ct s pc = find (is_outflow_of pc) s.events

-- `classification IN ('transfer-in', 'bridge-in')`
abbrev pub is_inflow_kind : ClassificationKind → Bool
is_inflow_kind transfer_in = true
is_inflow_kind bridge_in = true
is_inflow_kind _ = false

abbrev pub is_inflow_of :
    PendingClassification → ClassifiedTransaction → ℕ → ClassifiedTransaction → Bool
is_inflow_of pc outflow_ct to_wallet_id e =
    e.wallet_id == to_wallet_id
    && (e.tx_hash == pc.tx_hash
        && (same_chain e.chain pc.chain
            && (e.contract_address == outflow_ct.contract_address
                && is_inflow_kind e.classification)))

unfoldable pub locate_inflow_ct :
    Session → PendingClassification → ClassifiedTransaction → Option ClassifiedTransaction
locate_inflow_ct s pc outflow_ct = elim pc.to_wallet_id [
  | none ↦ none
  | some to_wallet_id ↦ find (is_inflow_of pc outflow_ct to_wallet_id) s.events
]

unfoldable pub stamp_resolution :
    Option TransferResolution → ClassifiedTransaction → ClassifiedTransaction
stamp_resolution resolution e = record e { transfer_resolution = resolution }

unfoldable pub stamp_inflow :
    Option TransferResolution → ℕ → ClassifiedTransaction → ClassifiedTransaction
stamp_inflow resolution source e = record e {
  transfer_resolution = resolution;
  relocation_source_event_id = some source;
}

-- `_stamp_legs` for a choice that `_validate_choice` let through, so that the dict has its key.
unfoldable pub stamp_legs : Session → PendingClassification → ChosenClassification → Session
stamp_legs s pc choice =
    let resolution = outflow_resolution pc.kind choice in
    elim (locate_outflow_ct s pc) [
      | none ↦ s
      | some outflow_ct ↦
          let stamped = set_event outflow_ct.id (stamp_resolution resolution) s in
          if stamps_inflow pc.kind choice
          then elim (locate_inflow_ct stamped pc outflow_ct) [
            | none ↦ stamped
            | some inflow_ct ↦
                set_event inflow_ct.id (stamp_inflow resolution outflow_ct.id) stamped
          ]
          else stamped
    ]

unfoldable pub snapshot : PendingClassification → PendingSnapshot
snapshot pc = record {
  state = pc.state;
  chosen_classification = pc.chosen_classification;
  resolved_by = pc.resolved_by;
  resolved_at = pc.resolved_at;
  dismiss_reason = pc.dismiss_reason;
  note = pc.note;
}

-- The row `pc` becomes `new`, a flush later the audit log has an entry.
unfoldable pub save : PendingClassification → Session → Session
save new s = record s { pendings = update (λ p. p.id == new.id) (λ p. new) s.pendings }

unfoldable pub write_audit : ClassificationAuditLog → Session → Session
write_audit entry s = record s { audit = s.audit ++ (entry ∷ []) }

abbrev pub entry_of :
    PendingClassification
    → PendingClassification
    → String
    → AuditAction
    → Option String
    → Option ℕ
    → ClassificationAuditLog
entry_of pc new actor action note rule_id = record {
  pending_id = pc.id;
  actor = actor;
  action = action;
  rule_id = rule_id;
  note = note;
  before_state = snapshot pc;
  after_state = snapshot new;
}

-- The states from which `resolve_classification`, and `reclassify`, may start.
abbrev pub may_resolve : PendingClassificationState → Bool
may_resolve dismissed = false
may_resolve _ = true

abbrev pub may_reclassify : PendingClassificationState → Bool
may_reclassify classified = true
may_reclassify applied = true
may_reclassify _ = false

abbrev pub is_classified : PendingClassificationState → Bool
is_classified classified = true
is_classified _ = false

abbrev pub same_choice : ChosenClassification → ChosenClassification → Bool
same_choice capital_contribution capital_contribution = true
same_choice sale sale = true
same_choice gift gift = true
same_choice loan loan = true
same_choice reassignment reassignment = true
same_choice payment payment = true
same_choice _ _ = false

abbrev pub chosen_is : Option ChosenClassification → ChosenClassification → Bool
chosen_is none c = false
chosen_is (some d) c = same_choice d c

abbrev pub first_some : Option ℕ → Option ℕ → Option ℕ
first_some none d = d
first_some (some a) d = some a

-- The assignments of `resolve_classification`.
unfoldable pub resolved_row :
    PendingClassification
    → ChosenClassification
    → Option String
    → Option ℕ
    → ℕ
    → PendingClassification
resolved_row pc choice note rule_id now = record pc {
  chosen_classification = some choice;
  resolved_by = some (if is_some rule_id then by_rule else by_user);
  resolved_at = some now;
  state = classified;
  note = note;
  resolved_rule_id = first_some rule_id pc.resolved_rule_id;
}

abbrev pub check : Bool → ResolveError → Result ResolveError (Unit {0})
check true e = ok tt
check false e = err e

unfoldable pub resolve_classification :
    Session
    → ℕ
    → Choice
    → String
    → Option String
    → Option ℕ
    → Result ResolveError (Session × PendingClassification)
resolve_classification s pending_id choice actor note rule_id = load s pending_id >>= λ pc.
    check (may_resolve pc.state) invalid_state >>= λ _. validate_choice pc.kind choice >>= λ c.
    if chosen_is pc.chosen_classification c && is_classified pc.state
    then ok (s, pc)
    else let new = resolved_row pc c note rule_id s.runtime.now in
      ok (
        write_audit (entry_of pc new actor (resolve_action c) note rule_id)
            (stamp_legs (save new s) new c),
        new,
      )

abbrev pub reopened : PendingClassificationState → PendingClassificationState
reopened applied = classified
reopened state = state

-- The assignments of `reclassify`: `resolved_by` stays.
unfoldable pub reclassified_row :
    PendingClassification → ChosenClassification → Option String → ℕ → PendingClassification
reclassified_row pc choice note now = record pc {
  chosen_classification = some choice;
  resolved_at = some now;
  note = note;
  state = reopened pc.state;
}

abbrev pub is_user : Option ResolvedBy → Bool
is_user (some by_user) = true
is_user _ = false

unfoldable pub reclassify :
    Session
    → ℕ
    → Choice
    → String
    → Option String
    → Result ResolveError (Session × PendingClassification)
reclassify s pending_id new_choice actor note = load s pending_id >>= λ pc.
    check (may_reclassify pc.state) invalid_state >>= λ _.
    validate_choice pc.kind new_choice >>= λ c.
    check (not (is_user pc.resolved_by && str_eq actor "rule")) user_resolved_guard >>= λ _.
    let new = reclassified_row pc c note s.runtime.now in
    ok (
      write_audit (entry_of pc new actor (reclassify_action c) note none)
          (stamp_legs (save new s) new c),
      new,
    )

unfoldable pub dismissed_row : PendingClassification → String → Bool → ℕ → PendingClassification
dismissed_row pc reason redirect now = record pc {
  state = dismissed;
  dismiss_reason = some (if redirect then "reclassified-internal" else reason);
  resolved_at = some now;
  resolved_by = some by_user;
}

-- The result has the key "redirect" exactly if `redirect` is true.
unfoldable pub dismiss : Session → ℕ → String → String → Bool → Result ResolveError (Session × Bool)
dismiss s pending_id reason actor redirect = load s pending_id >>= λ pc.
    let new = dismissed_row pc reason redirect s.runtime.now in
    ok (
      write_audit
          (entry_of pc new actor (if redirect then dismiss_redirect else dismiss_action)
            (if redirect then none else some reason) none)
          (save new s),
      redirect,
    )
