-- ===== src/Lots/Methods.antt =====
-- domain/lots/methods.py: the orders in which lots are consumed, and the check of a selection
-- that the caller makes by hand.
pub mod Orders
pub mod Fifo
pub mod Selection
use mathlib.Core.List.{reverse}
use lemon_ledger.Prelude.{
  ℕ, ◌*◌, ◌^◌, ℤ, pos, ltb, ltb_ℤ, leb_ℤ, ◌==◌, if◌then◌else◌, Bool, ◌&&◌, ◌||◌, not, none, some,
  List, [], ◌∷◌, map, find, sorted, Result, ok, err, ◌>>=◌, magnitude, signed,
}
use lemon_ledger.Models.{TaxLot, Try, invalid_operation, BasisMethod, fifo_method, specific_id}
use lemon_ledger.Decimal.{Decimal, usd, units, div, add}

-- The classes that implement the protocol LotMethod.
pub data LotMethod : Type 0 where
  fifo_order hifo_order lifo_order : LotMethod

-- Tuples compare by their first components, and by the rest where those are equal.
abbrev pub oldest_first : TaxLot → TaxLot → Bool
oldest_first a b =
    ltb a.acquired_at b.acquired_at || (a.acquired_at == b.acquired_at && ltb a.id b.id)

-- The key of `Lifo` is `-acquired_at.timestamp()`, a float: seconds of this era and their
-- microseconds have distinct floats, so it orders as the moment itself does, reversed.
abbrev pub newest_first : TaxLot → TaxLot → Bool
newest_first a b =
    ltb b.acquired_at a.acquired_at || (a.acquired_at == b.acquired_at && ltb a.id b.id)

-- Decimals compare by their exact values.
abbrev pub scaled : ℤ → ℕ → ℤ
scaled a k = signed a (magnitude a * k)

abbrev pub decimal_lt : Decimal → Decimal → Bool
decimal_lt a b = ltb_ℤ (scaled a.coef (10 ^ b.places)) (scaled b.coef (10 ^ a.places))

-- The `try` in `Hifo.order`: a division of 0 by 0 counts as 0; other errors pass.
abbrev pub zero_if_invalid : Try Decimal → Try Decimal
zero_if_invalid (ok unit) = ok unit
zero_if_invalid (err invalid_operation) = ok (usd (pos 0))
zero_if_invalid (err e) = err e

-- `_key` of `Hifo.order`, less its last two components, which are read off the lot.
unfoldable pub unit_cost : TaxLot → Try Decimal
unit_cost lot = zero_if_invalid (div (usd lot.cost_basis_usd) (units lot.quantity))

-- The key begins with `-unit`: a greater unit cost comes first.
abbrev pub dearest_first : Decimal × TaxLot → Decimal × TaxLot → Bool
dearest_first (u, a) (v, b) = decimal_lt v u || (not (decimal_lt u v) && oldest_first a b)

unfoldable pub with_units : List TaxLot → Try (List (Decimal × TaxLot))
with_units [] = ok []
with_units (lot ∷ lots) = do unit ← unit_cost lot; rest ← with_units lots; ok ((unit, lot) ∷ rest)

abbrev pub lot_of : Decimal × TaxLot → TaxLot
lot_of (_, lot) = lot

unfoldable pub order : LotMethod → List TaxLot → Try (List TaxLot)
order fifo_order lots = ok (sorted oldest_first lots)
order hifo_order lots = do keyed ← with_units lots; ok (map lot_of (sorted dearest_first keyed))
order lifo_order lots = ok (sorted newest_first lots)

unfoldable pub method_for : BasisMethod → LotMethod
method_for specific_id = hifo_order
method_for fifo_method = fifo_order

-- The messages of the ValueErrors that `SpecificIdValidator.validate` raises.
pub data SelectionError : Type 0 where
  not_in_pool not_positive exceeds_remaining : ℕ → SelectionError
  sum_differs : ℤ → SelectionError

-- One round of the loop over `selection.items()`; `lot_map` maps a key to the last lot with it.
unfoldable pub check_item : List TaxLot → ℕ × ℤ → Result SelectionError (TaxLot × ℤ)
check_item open_lots (lot_id, qty) = elim (find (λ l. l.id == lot_id) (reverse open_lots)) [
  | none ↦ err (not_in_pool lot_id)
  | some lot ↦
      if leb_ℤ qty (pos 0)
      then err (not_positive lot_id)
      else if ltb_ℤ (pos lot.quantity_remaining) qty
      then err (exceeds_remaining lot_id)
      else ok (lot, qty)
]

unfoldable pub check_items :
    List TaxLot → ℤ → List (ℕ × ℤ) → Result SelectionError (List (TaxLot × ℤ) × ℤ)
unfolding check_item add
check_items open_lots total [] = ok ([], total)
check_items open_lots total (item ∷ items) = do
  pair ← check_item open_lots item
  (pairs, sum) ← check_items open_lots (add total item.1) items
  ok (pair ∷ pairs, sum)

-- A dict is the list of its items in insertion order. The wallet only goes into a message.
unfoldable pub validate : List (ℕ × ℤ) → List TaxLot → ℤ → Result SelectionError (List (TaxLot × ℤ))
unfolding check_items
validate selection open_lots disposal_quantity = do
  (pairs, total) ← check_items open_lots (pos 0) selection
  if ltb_ℤ total disposal_quantity || ltb_ℤ disposal_quantity total
      then err (sum_differs total)
      else ok pairs
