-- ===== src/Lots/Consume/Exhausts.antt =====
-- On the lots that `consume` in domain/lots/engine.py leaves behind.
use lemon_ledger.Prelude.{
  ℕ, suc, ◌-◌, ◌<◌, ◌≡◌, refl, arith, Bool, Bool-cases, true, false, ltb, ◌==◌, min, ℤ, inl, inr,
  if◌then◌else◌, List, [], ◌∷◌, length, ok, err, ◌>>=◌,
}
use lemon_ledger.Models.{TaxLot, Try, insufficient_lots}
use lemon_ledger.Decimal.{limit}
use lemon_ledger.Decimal.Exact.{sub_qty_exact}
use lemon_ledger.Lots.Methods.{LotMethod, order}
use lemon_ledger.Lots.Consume.{consume, ConsumptionSlice, basis_of, consume_from}

abbrev IsFull : ConsumptionSlice → List ConsumptionSlice → Type 0
IsFull s [] = Unit
IsFull s (t ∷ slices) = s.quantity_consumed ≡ s.lot.quantity_remaining

-- Every slice but the last takes all that is left of its lot.
abbrev pub IsExhausting : List ConsumptionSlice → Type 0
IsExhausting [] = Unit
IsExhausting (s ∷ slices) = IsFull s slices × IsExhausting slices

abbrev Exhausts : ℕ → Try (List ConsumptionSlice × ℕ) → Type 0
Exhausts outstanding (ok (slices, left)) =
    IsExhausting slices × (outstanding ≡ 0 → length slices ≡ 0)
Exhausts outstanding (err _) = Unit

full :
    (lot : TaxLot) (outstanding n : ℕ)
    → (outstanding - min lot.quantity_remaining outstanding ≡ 0 → suc n ≡ 0)
    → min lot.quantity_remaining outstanding ≡ lot.quantity_remaining
full lot outstanding n h =
    elim (Bool-cases (outstanding - min lot.quantity_remaining outstanding == 0)) [
      | inl nothing ↦ never (h (ground arith))
      | inr something ↦ ground arith
    ]
  where
    never : suc n ≡ 0 → min lot.quantity_remaining outstanding ≡ lot.quantity_remaining
    never e = omega arith

consume_from-Exhausts :
    (lots : List TaxLot) (outstanding : ℕ)
    → outstanding < limit
    → Exhausts outstanding (consume_from lots outstanding)
unfolding consume_from
consume_from-Exhausts [] outstanding h = (tt, λ e. refl)
consume_from-Exhausts (lot ∷ lots) outstanding h = elim (Bool-cases (outstanding == 0)) [
  | inl done ↦ rw done (tt, λ e. refl)
  | inr more ↦
      rw (more, sub_qty_exact outstanding (min lot.quantity_remaining outstanding) h)
        (go (basis_of lot _) (consume_from lots _)
          (consume_from-Exhausts lots (outstanding - min lot.quantity_remaining outstanding)
            (omega arith))
          (positive more))
]
  where
    positive : outstanding == 0 ≡ false → 0 < outstanding
    positive e = ground arith

    go :
        (basis : Try ℤ) (rest : Try (List ConsumptionSlice × ℕ))
        → Exhausts (outstanding - min lot.quantity_remaining outstanding) rest
        → 0 < outstanding
        → Exhausts outstanding (
            basis >>= λ x. rest >>= λ (slices, left). ok (
              record {
                lot = lot;
                quantity_consumed = min lot.quantity_remaining outstanding;
                basis_consumed_usd = x;
              }
                  ∷ slices,
              left,
            ))
    go (err e) rest k p = tt
    go (ok x) (err e) k p = tt
    go (ok x) (ok ([], left)) (all, stops) p = ((tt, tt), λ e. omega arith)
    go (ok x) (ok (t ∷ slices, left)) (all, stops) p =
        ((full lot outstanding (length slices) stops, all), λ e. omega arith)

abbrev pub ExhaustsAll : Try (List ConsumptionSlice) → Type 0
ExhaustsAll (ok slices) = IsExhausting slices
ExhaustsAll (err _) = Unit

-- Let the quantity have fewer than 29 digits. By any method, if `consume` returns, every slice but
-- the last takes all that is left of its lot.
pub consume-Exhausts :
    (method : LotMethod) (lots : List TaxLot) (quantity : ℕ)
    → quantity < limit
    → ExhaustsAll (consume method lots quantity)
unfolding consume
consume-Exhausts method lots quantity small = go (order method lots)
  where
    enough :
        (b : Bool) (slices : List ConsumptionSlice) (left : ℕ)
        → IsExhausting slices
        → ExhaustsAll (if b then err (insufficient_lots left) else ok slices)
    enough true slices left h = tt
    enough false slices left h = h

    walk :
        (w : Try (List ConsumptionSlice × ℕ))
        → Exhausts quantity w
        → ExhaustsAll
            (w >>= λ (slices, left). if ltb 0 left then err (insufficient_lots left) else ok slices)
    walk (err e) h = tt
    walk (ok (slices, left)) (all, stops) = enough (ltb 0 left) slices left all

    go :
        (r : Try (List TaxLot))
        → ExhaustsAll (
            r >>= λ ordered. consume_from ordered quantity >>= λ (slices, left).
            if ltb 0 left then err (insufficient_lots left) else ok slices)
    go (err e) = tt
    go (ok ordered) =
        walk (consume_from ordered quantity) (consume_from-Exhausts ordered quantity small)
