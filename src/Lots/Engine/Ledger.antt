-- ===== src/Lots/Engine/Ledger.antt =====
-- On the rows of tax_lots and lot_disposals that the engine of domain/lots/engine.py writes.
pub mod Writes
use lemon_ledger.Prelude.{
  ℕ, ◌+◌, ◌≤◌, ◌<◌, ◌≡◌, refl, sym, ap, ◌∙◌, arith, Bool-cases, true, false, ◌==◌, ==_iff, inl, inr,
  if◌then◌else◌, List, [], ◌∷◌, ◌++◌, update, sum_of, sum_of-append, All, All-update, All-append,
  map,
}
use lemon_ledger.Models.{
  Session, ClassifiedTransaction, TaxLot, LotDisposal, set_lot, add_lot, add_disposal,
}
use lemon_ledger.Decimal.{limit}
use lemon_ledger.Lots.Lines.{DisposalLine}
use lemon_ledger.Lots.Dispose.{decrement, disposal_of, write_disposals}
use lemon_ledger.Lots.Dispose.Draws.{
  at, count, remaining_at, absent, decrement_lem, decrement-id, Distinct, Covered, still_Covered,
}
use lemon_ledger.Lots.Dispose.Conservation.{of_line}

-- What the disposals have taken from the lot with a key.
abbrev pub taken_for : ℕ → List LotDisposal → ℕ
taken_for k ds = sum_of (λ d. if d.lot_id == k then d.quantity_consumed else 0) ds

-- What a lot has left and what was disposed of it are no more than it had.
abbrev pub IsBacked : List LotDisposal → TaxLot → Type 0
IsBacked ds l = (l.quantity_remaining + taken_for l.id ds ≤ l.quantity) × (l.quantity < limit)

-- No two lots have one key, no lot is overdrawn, and a key that is still to be drawn is no lot's
-- and no disposal's, as the keys that are drawn differ.
pub record IsLedger (s : Session) : Type 0 where
  pub unique : (k : ℕ) → count k s.lots ≤ 1
  pub backed : All (IsBacked s.disposals) s.lots
  pub unused :
      (n : ℕ)
      → s.drawn ≤ n
      → (count (s.runtime.uuid7 n) s.lots ≡ 0) × (taken_for (s.runtime.uuid7 n) s.disposals ≡ 0)
  pub differ : (m n : ℕ) → s.runtime.uuid7 m ≡ s.runtime.uuid7 n → m ≡ n

-- An assignment that keeps the key and the quantity and leaves no more than there was.
pub record Lessens (f : TaxLot → TaxLot) (l : TaxLot) : Type 0 where
  pub same_id : (f l).id ≡ l.id
  pub same_quantity : (f l).quantity ≡ l.quantity
  pub no_more : (f l).quantity_remaining ≤ l.quantity_remaining

pub count-update :
    (j k : ℕ) (f : TaxLot → TaxLot) (lots : List TaxLot)
    → ((l : TaxLot) → (f l).id ≡ l.id)
    → count j (update (λ l. l.id == k) f lots) ≡ count j lots
count-update j k f [] same = refl
count-update j k f (l ∷ lots) same = elim (Bool-cases (l.id == k)) [
  | inl fit ↦ rw (fit, same l) (omega (arith, count-update j k f lots same))
  | inr unfit ↦ rw unfit (omega (arith, count-update j k f lots same))
]

pub Lessens-IsBacked :
    (f : TaxLot → TaxLot) (ds : List LotDisposal) (l : TaxLot)
    → Lessens f l
    → IsBacked ds l
    → IsBacked ds (f l)
Lessens-IsBacked f ds l m (h, small) =
    let some_left = m.no_more in rw (m.same_id, m.same_quantity) (omega arith, small)

module _ (k : ℕ) (f : TaxLot → TaxLot) (s : Session) (same : (l : TaxLot) → (f l).id ≡ l.id) where
  pub set_lot-IsLedger :
      ((l : TaxLot) → l.quantity_remaining < limit → Lessens f l)
      → IsLedger s
      → IsLedger (set_lot k f s)
  unfolding set_lot
  set_lot-IsLedger less h = record {
    unique = λ j. omega (arith, count-update j k f s.lots same, h.unique j);
    backed =
        All-update (IsBacked s.disposals) (λ l. l.id == k) f
          (λ l b. Lessens-IsBacked f s.disposals l (less l (bound l b)) b) s.lots h.backed;
    unused = λ n later. (
      omega (arith, count-update (s.runtime.uuid7 n) k f s.lots same, (h.unused n later).0),
      (h.unused n later).1,
    );
    differ = h.differ;
  }
    where
      bound : (l : TaxLot) → IsBacked s.disposals l → l.quantity_remaining < limit
      bound l (b, small) = omega arith

pub decrement-quantity : (c : ℕ) (l : TaxLot) → (decrement c l).quantity ≡ l.quantity
unfolding decrement
decrement-quantity c l = refl

pub decrement-Lessens :
    (c : ℕ) (l : TaxLot) → l.quantity_remaining < limit → Lessens (decrement c) l
decrement-Lessens c l small = record {
  same_id = decrement-id c l;
  same_quantity = decrement-quantity c l;
  no_more = omega (arith, decrement_lem c l small);
}
