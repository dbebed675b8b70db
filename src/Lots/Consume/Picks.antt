-- ===== src/Lots/Consume/Picks.antt =====
-- On the lots that `consume` in domain/lots/engine.py takes from.
use lemon_ledger.Prelude.{
  ℕ, ◌≤◌, ◌≡◌, arith, Bool, true, false, ltb, ◌==◌, min, ℤ, if◌then◌else◌, List, [], ◌∷◌, sum_of,
  ok, err, ◌>>=◌,
}
use lemon_ledger.Models.{TaxLot, Try, insufficient_lots}
use lemon_ledger.Lots.Methods.{LotMethod, order}
use lemon_ledger.Lots.Methods.Orders.{Rearranges, order-Rearranges}
use lemon_ledger.Lots.Consume.{consume, ConsumptionSlice, basis_of, consume_from}

-- Whatever is counted, the lots of the slices have no more of it than the lots.
abbrev pub IsPicked : List TaxLot → List ConsumptionSlice → Type 0
IsPicked lots slices = (f : TaxLot → ℕ) → sum_of (λ s. f s.lot) slices ≤ sum_of f lots

abbrev Picks : List TaxLot → Try (List ConsumptionSlice × ℕ) → Type 0
Picks lots (ok (slices, left)) = IsPicked lots slices
Picks lots (err _) = Unit

consume_from-Picks :
    (lots : List TaxLot) (outstanding : ℕ) → Picks lots (consume_from lots outstanding)
unfolding consume_from
consume_from-Picks [] outstanding = go (outstanding == 0)
  where
    go : (b : Bool) → Picks [] (ok ([], outstanding))
    go b f = omega arith
consume_from-Picks (lot ∷ lots) outstanding =
    stop (outstanding == 0) (basis_of lot (min lot.quantity_remaining outstanding))
      (consume_from lots _) (consume_from-Picks lots _)
  where
    stop :
        (b : Bool) (basis : Try ℤ) (rest : Try (List ConsumptionSlice × ℕ))
        → Picks lots rest
        → Picks (lot ∷ lots) (
            if b
            then ok ([], outstanding)
            else basis >>= λ x. rest >>= λ (slices, left). ok (
              record {
                lot = lot;
                quantity_consumed = min lot.quantity_remaining outstanding;
                basis_consumed_usd = x;
              }
                  ∷ slices,
              left,
            ))
    stop true basis rest h = λ f. omega arith
    stop false (err e) rest h = tt
    stop false (ok x) (err e) h = tt
    stop false (ok x) (ok (slices, left)) h = λ f. omega (arith, h f)

abbrev pub PicksAll : List TaxLot → Try (List ConsumptionSlice) → Type 0
PicksAll lots (ok slices) = IsPicked lots slices
PicksAll lots (err _) = Unit

pub consume-Picks :
    (method : LotMethod) (lots : List TaxLot) (quantity : ℕ)
    → PicksAll lots (consume method lots quantity)
unfolding consume
consume-Picks method lots quantity =
    go (order method lots) (λ f. order-Rearranges f (λ _. Unit) method lots)
  where
    enough :
        (b : Bool) (slices : List ConsumptionSlice) (left : ℕ)
        → IsPicked lots slices
        → PicksAll lots (if b then err (insufficient_lots left) else ok slices)
    enough true slices left h = tt
    enough false slices left h = h

    walk :
        (ordered : List TaxLot) (w : Try (List ConsumptionSlice × ℕ))
        → Picks ordered w
        → ((f : TaxLot → ℕ) → sum_of f ordered ≡ sum_of f lots)
        → PicksAll lots
            (w >>= λ (slices, left). if ltb 0 left then err (insufficient_lots left) else ok slices)
    walk ordered (err e) h same = tt
    walk ordered (ok (slices, left)) h same =
        enough (ltb 0 left) slices left λ f. omega (arith, h f, same f)

    go :
        (r : Try (List TaxLot))
        → ((f : TaxLot → ℕ) → Rearranges f (λ _. Unit) lots r)
        → PicksAll lots (
            r >>= λ ordered. consume_from ordered quantity >>= λ (slices, left).
            if ltb 0 left then err (insufficient_lots left) else ok slices)
    go (err e) h = tt
    go (ok ordered) h =
        walk ordered (consume_from ordered quantity) (consume_from-Picks ordered quantity)
          (λ f. (h f).0)
