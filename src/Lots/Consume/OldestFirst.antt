-- ===== src/Lots/Consume/OldestFirst.antt =====
-- On the lots that `consume` of domain/lots/engine.py takes from, and those that it leaves.
use mathlib.Core.List.{Perm}
use lemon_ledger.Prelude.{
  ℕ, ◌≡◌, refl, sym, ap, subst, Bool, true, false, ltb, ◌==◌, min, ℤ, if◌then◌else◌, List, [], ◌∷◌,
  ◌++◌, map, ok, err, ◌>>=◌, sorted, sorted-perm,
}
use lemon_ledger.Models.{TaxLot, Try, insufficient_lots}
use lemon_ledger.Lots.Methods.{oldest_first, fifo_order, order}
use lemon_ledger.Lots.Methods.Fifo.{IsOldestFirst, sorted-IsOldestFirst}
use lemon_ledger.Lots.Consume.{consume, ConsumptionSlice, basis_of, consume_from}

abbrev pub slice_lot : ConsumptionSlice → TaxLot
slice_lot s = s.lot

-- The lots of the slices are the first of the lots.
abbrev pub Begins : List TaxLot → List ConsumptionSlice → Type 0
Begins lots slices = (left : List TaxLot) × (map slice_lot slices ++ left ≡ lots)

abbrev pub Walked : List TaxLot → Try (List ConsumptionSlice × ℕ) → Type 0
Walked lots (ok (slices, outstanding)) = Begins lots slices
Walked lots (err _) = Unit

pub consume_from-Begins :
    (lots : List TaxLot) (outstanding : ℕ) → Walked lots (consume_from lots outstanding)
unfolding consume_from
consume_from-Begins [] outstanding = ([], refl)
consume_from-Begins (lot ∷ lots) outstanding =
    stop (outstanding == 0) (basis_of lot (min lot.quantity_remaining outstanding))
      (consume_from lots _) (consume_from-Begins lots _)
  where
    stop :
        (b : Bool) (basis : Try ℤ) (rest : Try (List ConsumptionSlice × ℕ))
        → Walked lots rest
        → Walked (lot ∷ lots) (
            if b
            then ok ([], outstanding)
            else basis >>= λ x. rest >>= λ (slices, left). ok (
              record {
                lot = lot;
                quantity_consumed = min lot.quantity_remaining outstanding;
                basis_consumed_usd = x;
              }
                  ∷ slices,
              left,
            ))
    stop true basis rest h = (lot ∷ lots, refl)
    stop false (err e) rest h = tt
    stop false (ok x) (err e) h = tt
    stop false (ok x) (ok (slices, left)) (after, e) = (after, ap (λ ls. lot ∷ ls) e)

-- Where `consume` returns, the lots of its slices, with those that it leaves after them, are all
-- the lots, the oldest first.
abbrev pub TakesOldest : List TaxLot → Try (List ConsumptionSlice) → Type 0
TakesOldest lots (ok slices) =
    (left : List TaxLot) × Perm (map slice_lot slices ++ left) lots
    × IsOldestFirst (map slice_lot slices ++ left)
TakesOldest lots (err _) = Unit

enough :
    (b : Bool) (lots ordered : List TaxLot) (slices : List ConsumptionSlice) (outstanding : ℕ)
    → Perm ordered lots
    → IsOldestFirst ordered
    → Begins ordered slices
    → TakesOldest lots (if b then err (insufficient_lots outstanding) else ok slices)
enough true lots ordered slices outstanding p sorts begins = tt
enough false lots ordered slices outstanding p sorts (left, e) =
    (left, subst (λ ls. Perm ls lots) (sym e) p, subst IsOldestFirst (sym e) sorts)

-- A Fifo consumption that returns takes from the oldest lots: those that it takes from, in the
-- order of its slices, and those that it leaves are together the given lots, and each was acquired
-- no later than all that follow it, ties being broken by the key.
pub consume-TakesOldest :
    (lots : List TaxLot) (quantity : ℕ) → TakesOldest lots (consume fifo_order lots quantity)
unfolding consume order
consume-TakesOldest lots quantity =
    walk (consume_from (sorted oldest_first lots) quantity) (consume_from-Begins _ quantity)
  where
    walk :
        (w : Try (List ConsumptionSlice × ℕ))
        → Walked (sorted oldest_first lots) w
        → TakesOldest lots (
            w >>= λ (slices, outstanding).
            if ltb 0 outstanding then err (insufficient_lots outstanding) else ok slices)
    walk (err e) h = tt
    walk (ok (slices, outstanding)) h =
        enough (ltb 0 outstanding) lots (sorted oldest_first lots) slices outstanding
          (sorted-perm oldest_first lots) (sorted-IsOldestFirst lots) h
