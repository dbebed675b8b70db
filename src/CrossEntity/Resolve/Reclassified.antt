-- ===== src/CrossEntity/Resolve/Reclassified.antt =====
-- On `reclassify` of domain/cross_entity/resolve.py.
use text.Mathlib.Text.{◌==◌ as str_eq}
use lemon_ledger.Prelude.{ℕ, ◌==◌, ◌≡◌, Bool, true, ◌&&◌, Option, String, ok}
use lemon_ledger.Models.{Session, PendingClassification, classified, ChosenClassification}
use lemon_ledger.CrossEntity.Resolve.{member, load, is_user, reclassify, chosen_is}

-- The row was resolved by a user, and the caller calls itself "rule".
abbrev pub is_guarded : PendingClassification → String → Bool
is_guarded pc actor = is_user pc.resolved_by && str_eq actor "rule"

-- The call returns, and the row that is loaded afterwards is the old one with the new choice.
pub record Reclassifies (s : Session) (k : ℕ) (pc : PendingClassification)
    (c : ChosenClassification) (actor : String) (memo : Option String) : Type 0 where
  pub after : Session
  pub row : PendingClassification
  pub returns : reclassify s k (member c) actor memo ≡ ok (after, row)
  pub stored : load after k ≡ ok row
  pub state : row.state ≡ classified
  pub chosen : chosen_is row.chosen_classification c ≡ true
  pub resolver : row.resolved_by ≡ pc.resolved_by
  pub transfer : row.logical_transfer_key ≡ pc.logical_transfer_key
