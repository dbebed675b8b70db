-- ===== src/Lots/Methods/Orders.antt =====
-- On the three orders of domain/lots/methods.py.
use lemon_ledger.Prelude.{
  ℕ, ◌≡◌, refl, sym, ap, ◌∙◌, Bool, true, false, List, [], ◌∷◌, map, sum_of, All, ok, err, ◌>>=◌,
  sorted, sum_of-sorted, sum_of-map, All-sorted, All-to_map, All-of_map, if◌then◌else◌, ◌==◌,
  magnitude,
}
use lemon_ledger.Models.{TaxLot, Try, insufficient_lots, invalid_operation, division_by_zero}
use lemon_ledger.Decimal.{Decimal, div, usd, units}
use lemon_ledger.Lots.Methods.{
  LotMethod, fifo_order, hifo_order, lifo_order, oldest_first, newest_first, dearest_first, lot_of,
  zero_if_invalid, unit_cost, with_units, order,
}

-- The errors of the arithmetic are not those of a shortage.
abbrev pub NotShort : {A : Type 0} → Try A → Type 0
NotShort (err (insufficient_lots _)) = ⊥
NotShort _ = Unit

pub NotShort-bind :
    {A B : Type 0} (m : Try A) (f : A → Try B)
    → NotShort m
    → ((a : A) → NotShort (f a))
    → NotShort (m >>= f)
NotShort-bind (ok a) f h k = k a
NotShort-bind (err (insufficient_lots _)) f h k = h
NotShort-bind (err invalid_operation) f h k = tt
NotShort-bind (err division_by_zero) f h k = tt

pub NotShort-if :
    {A : Type 0} (b : Bool) (x y : Try A) → NotShort x → NotShort y → NotShort (if b then x else y)
NotShort-if true x y h k = h
NotShort-if false x y h k = k

pub div-NotShort : (a b : Decimal) → NotShort (div a b)
unfolding div
div-NotShort a b = NotShort-if (magnitude b.coef == 0) _ (ok _) (go (magnitude a.coef == 0)) tt
  where
    go :
        (c : Bool)
        → NotShort {A = Decimal} (err (if c then invalid_operation else division_by_zero))
    go true = tt
    go false = tt

-- The rearranged lots have the same sum of `f`, and `P` holds of all of them if it did before.
abbrev pub Rearranges : (TaxLot → ℕ) → (TaxLot → Type 0) → List TaxLot → Try (List TaxLot) → Type 0
Rearranges f P lots (ok ordered) = (sum_of f ordered ≡ sum_of f lots) × (All P lots → All P ordered)
Rearranges f P lots (err (insufficient_lots _)) = ⊥
Rearranges f P lots (err _) = Unit

abbrev Keyed : List TaxLot → Try (List (Decimal × TaxLot)) → Type 0
Keyed lots (ok keyed) = map lot_of keyed ≡ lots
Keyed lots (err (insufficient_lots _)) = ⊥
Keyed lots (err _) = Unit

unit_cost-NotShort : (lot : TaxLot) → NotShort (unit_cost lot)
unfolding unit_cost
unit_cost-NotShort lot = go (div (usd lot.cost_basis_usd) (units lot.quantity)) (div-NotShort _ _)
  where
    go : (r : Try Decimal) → NotShort r → NotShort (zero_if_invalid r)
    go (ok u) h = tt
    go (err (insufficient_lots _)) h = h
    go (err invalid_operation) h = tt
    go (err division_by_zero) h = tt

Keyed-step :
    (lot : TaxLot) (lots : List TaxLot) (unit : Try Decimal) (rest : Try (List (Decimal × TaxLot)))
    → NotShort unit
    → Keyed lots rest
    → Keyed (lot ∷ lots) (unit >>= λ u. rest >>= λ r. ok ((u, lot) ∷ r))
Keyed-step lot lots (ok u) (ok r) h k = ap (◌∷◌ lot) k
Keyed-step lot lots (ok u) (err (insufficient_lots _)) h k = k
Keyed-step lot lots (ok u) (err invalid_operation) h k = tt
Keyed-step lot lots (ok u) (err division_by_zero) h k = tt
Keyed-step lot lots (err (insufficient_lots _)) r h k = h
Keyed-step lot lots (err invalid_operation) r h k = tt
Keyed-step lot lots (err division_by_zero) r h k = tt

with_units-Keyed : (lots : List TaxLot) → Keyed lots (with_units lots)
unfolding with_units
with_units-Keyed [] = refl
with_units-Keyed (lot ∷ lots) =
    Keyed-step lot lots (unit_cost lot) (with_units lots) (unit_cost-NotShort lot)
      (with_units-Keyed lots)

module _ (f : TaxLot → ℕ) (P : TaxLot → Type 0) where
  hifo_step :
      (lots : List TaxLot) (keyed : Try (List (Decimal × TaxLot)))
      → Keyed lots keyed
      → Rearranges f P lots (keyed >>= λ k. ok (map lot_of (sorted dearest_first k)))
  hifo_step lots (ok keyed) same = (
    sum_of-map f lot_of (sorted dearest_first keyed)
        ∙ sum_of-sorted dearest_first (λ k. f (lot_of k)) keyed
        ∙ sym (sum_of-map f lot_of keyed)
        ∙ ap (sum_of f) same,
    λ h. All-to_map P lot_of (sorted dearest_first keyed) (
        All-sorted dearest_first (λ k. P (lot_of k)) keyed (All-of_map P lot_of keyed (rw same h))),
  )
  hifo_step lots (err (insufficient_lots _)) k = k
  hifo_step lots (err invalid_operation) k = tt
  hifo_step lots (err division_by_zero) k = tt

  pub order-Rearranges : (m : LotMethod) (lots : List TaxLot) → Rearranges f P lots (order m lots)
  unfolding order
  order-Rearranges fifo_order lots =
      (sum_of-sorted oldest_first f lots, All-sorted oldest_first P lots)
  order-Rearranges hifo_order lots = hifo_step lots (with_units lots) (with_units-Keyed lots)
  order-Rearranges lifo_order lots =
      (sum_of-sorted newest_first f lots, All-sorted newest_first P lots)
