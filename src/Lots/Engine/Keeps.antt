-- ===== src/Lots/Engine/Keeps.antt =====
-- On the calls of domain/lots/engine.py that keep the rows of tax_lots and lot_disposals sound.
use lemon_ledger.Prelude.{
  ℕ, ◌≡◌, refl, Bool, true, false, Option, List, ok, err, ◌>>=◌, if◌then◌else◌,
}
use lemon_ledger.Models.{
  Session, Try, ClassifiedTransaction, LotRelocation, LotExceptionReason, ExceptionDetail,
  set_event, add_exception, add_relocation, insufficient_lots, invalid_operation, division_by_zero,
}
use lemon_ledger.Lots.Consume.{ConsumptionSlice}
use lemon_ledger.Lots.Acquire.{record_exception}
use lemon_ledger.Lots.Dispose.{or_record}
use lemon_ledger.Lots.Engine.Ledger.{IsLedger}

-- A call keeps the ledger sound, if it returns.
abbrev pub Keeps : Try Session → Type 0
Keeps (ok s) = IsLedger s
Keeps (err _) = Unit

module _ (s : Session) (h : IsLedger s) where
  -- Rows of the other tables.
  pub add_relocation-IsLedger : (r : LotRelocation) → IsLedger (add_relocation r s)
  unfolding add_relocation
  add_relocation-IsLedger r = record {
    unique = h.unique;
    backed = h.backed;
    unused = h.unused;
    differ = h.differ;
  }

  pub record_exception-IsLedger :
      (event : ClassifiedTransaction) (reason : LotExceptionReason) (detail : ExceptionDetail)
      (lacks : Option ℕ)
      → IsLedger (record_exception s event reason detail lacks)
  unfolding record_exception add_exception
  record_exception-IsLedger event reason detail lacks = record {
    unique = h.unique;
    backed = h.backed;
    unused = h.unused;
    differ = h.differ;
  }

  pub set_event-IsLedger :
      (k : ℕ) (f : ClassifiedTransaction → ClassifiedTransaction) → IsLedger (set_event k f s)
  unfolding set_event
  set_event-IsLedger k f = record {
    unique = h.unique;
    backed = h.backed;
    unused = h.unused;
    differ = h.differ;
  }

-- `or_record` keeps the ledger sound if its continuation does, for the slices that it is given.
pub or_record-Keeps :
    (s : Session) (event : ClassifiedTransaction) (r : Try (List ConsumptionSlice))
    (k : List ConsumptionSlice → Try Session)
    → IsLedger s
    → ((slices : List ConsumptionSlice) → r ≡ ok slices → Keeps (k slices))
    → Keeps (or_record s event r k)
unfolding or_record
or_record-Keeps s event (ok slices) k h g = g slices refl
or_record-Keeps s event (err (insufficient_lots u)) k h g =
    record_exception-IsLedger s h event _ _ _
or_record-Keeps s event (err invalid_operation) k h g = tt
or_record-Keeps s event (err division_by_zero) k h g = tt

pub Keeps-bind :
    {A : Type 0} (m : Try A) (f : A → Try Session) → ((a : A) → Keeps (f a)) → Keeps (m >>= f)
Keeps-bind (ok a) f h = h a
Keeps-bind (err e) f h = tt

pub Keeps-then :
    (m : Try Session) (f : Session → Try Session)
    → Keeps m
    → ((s : Session) → IsLedger s → Keeps (f s))
    → Keeps (m >>= f)
Keeps-then (ok s) f k h = h s k
Keeps-then (err e) f k h = tt

pub Keeps-if : (b : Bool) (x y : Try Session) → Keeps x → Keeps y → Keeps (if b then x else y)
Keeps-if true x y h k = h
Keeps-if false x y h k = k
