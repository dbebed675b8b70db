-- ===== src/Tests/Gate.antt =====
-- The theorems on domain/forms/gate.py and activity_report.py applied to a session.
use lemon_ledger.Prelude.{sorted, refl}
use lemon_ledger.Tests.{start}
use lemon_ledger.Forms.Gate.{
  check_gate, get_entity_wallet_ids, v_lot_gate, blocks, blocker_rows, event_rows, exception_rows,
  confirmation_rows, aged_rows, transfer_rows,
}
use lemon_ledger.Forms.Gate.Clear.{IsClear, check_gate-IsClear}

check_gate-IsClear_example : IsClear start (get_entity_wallet_ids start 9) 3
unfolding check_gate blocker_rows v_lot_gate get_entity_wallet_ids sorted event_rows exception_rows
    confirmation_rows aged_rows transfer_rows blocks
check_gate-IsClear_example = check_gate-IsClear start 9 3 refl
