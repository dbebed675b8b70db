-- ===== src/Lots/Methods/Selection.antt =====
-- On `SpecificIdValidator.validate` of domain/lots/methods.py.
use mathlib.Core.List.{reverse, Mem, mem-reverse, mem-cons_self, mem-cons_of_mem}
use lemon_ledger.Prelude.{
  ℕ, ◌+◌, ◌<◌, ◌≤◌, ◌==◌, ◌≡◌, refl, sym, subst, ap, ◌∙◌, ◌+ℤ◌, sum_ℤ, sum_of, magnitude,
  magnitude-add-le, int_laws, eq_of_parts, pos_part, get_or, Option-cases, negsuc, arith, Bool,
  Bool-cases, true, false, ◌||◌, inl, inr, if◌then◌else◌, Option, none, some, ℤ, pos, ltb_ℤ, leb_ℤ,
  List, [], ◌∷◌, map, All, find, Result, ok, err, ◌>>=◌,
}
use lemon_ledger.Models.{TaxLot}
use lemon_ledger.Decimal.{limit, add}
use lemon_ledger.Decimal.Exact.{add_exact}
use lemon_ledger.Lots.Methods.{
  SelectionError, not_positive, exceeds_remaining, sum_differs, check_item, check_items, validate,
}

-- The item of the selection that a pair comes from.
abbrev pub item_of : TaxLot × ℤ → ℕ × ℤ
item_of (lot, qty) = (lot.id, qty)

-- A lot of the pool, and a positive quantity that it has.
abbrev pub IsCovered : List TaxLot → TaxLot × ℤ → Type 0
IsCovered lots (lot, qty) =
    Mem lot lots × (0 < pos_part qty) × (pos_part qty ≤ lot.quantity_remaining)

-- The quantity of an item.
abbrev pub qty_of : ℕ × ℤ → ℤ
qty_of (lot_id, qty) = qty

-- The pairs stand for the items, in their order, and the items add up to the quantity.
abbrev pub Selects :
    List (ℕ × ℤ) → List TaxLot → ℤ → Result SelectionError (List (TaxLot × ℤ)) → Type 0
Selects items lots quantity (ok pairs) =
    (map item_of pairs ≡ items) × All (IsCovered lots) pairs × (sum_ℤ qty_of items ≡ quantity)
Selects items lots quantity (err _) = Unit

abbrev id_or : Option TaxLot → ℕ → ℕ
id_or none k = k
id_or (some l) k = l.id

find-id :
    (k : ℕ) (lots : List TaxLot) (lot : TaxLot) → find (λ l. l.id == k) lots ≡ some lot → lot.id ≡ k
find-id k [] lot h = ground arith
find-id k (l ∷ lots) lot h = elim (Bool-cases (l.id == k)) [
  | inl same ↦ head same (ap (λ o. id_or o k) (rw same at h))
  | inr differ ↦ find-id k lots lot (rw differ at h)
]
  where
    head : l.id == k ≡ true → l.id ≡ lot.id → lot.id ≡ k
    head same e = ground arith

find-Mem :
    (p : TaxLot → Bool) (lots : List TaxLot) {lot : TaxLot} → find p lots ≡ some lot → Mem lot lots
find-Mem p [] h = ground arith
find-Mem p (l ∷ lots) {lot} h = elim (Bool-cases (p l)) [
  | inl fit ↦
      subst (λ x. Mem x (l ∷ lots)) (ap (λ o. get_or o l) (rw fit at h))
        (mem-cons_self {a = l} {l = lots})
  | inr unfit ↦ mem-cons_of_mem l (find-Mem p lots (rw unfit at h))
]

covers :
    (qty : ℤ) (left : ℕ)
    → leb_ℤ qty (pos 0) ≡ false
    → ltb_ℤ (pos left) qty ≡ false
    → (0 < pos_part qty) × (pos_part qty ≤ left)
covers (pos n) left e f = ground arith
covers (negsuc n) left e f = ground arith

or_false : (b c : Bool) → (b || c) ≡ false → (b ≡ false) × (c ≡ false)
or_false b c h = ground arith

zero-add : (x : ℤ) → x ≡ pos 0 +ℤ x
zero-add x = omega int_laws

module _ (open_lots : List TaxLot) where
  -- An item that is checked.
  abbrev Checks : ℕ × ℤ → Result SelectionError (TaxLot × ℤ) → Type 0
  Checks item (ok pair) = (item_of pair ≡ item) × IsCovered open_lots pair
  Checks item (err _) = Unit

  check_found :
      (lot_id : ℕ) (qty : ℤ) (lot : TaxLot)
      → lot.id ≡ lot_id
      → Mem lot open_lots
      → (b c : Bool) → leb_ℤ qty (pos 0) ≡ b
      → ltb_ℤ (pos lot.quantity_remaining) qty ≡ c
      → Checks
          (lot_id, qty)
          (if b
            then err (not_positive lot_id)
            else if c
            then err (exceeds_remaining lot_id)
            else ok (lot, qty))
  check_found lot_id qty lot same there true c e f = tt
  check_found lot_id qty lot same there false true e f = tt
  check_found lot_id qty lot same there false false e f =
      let (some_taken, enough) = covers qty lot.quantity_remaining e f in
      ((λ i. (same i, qty)), (there, some_taken, enough))

  check_item-Checks : (item : ℕ × ℤ) → Checks item (check_item open_lots item)
  unfolding check_item
  check_item-Checks (lot_id, qty) =
      elim (Option-cases (find (λ l. l.id == lot_id) (reverse open_lots))) [
        | inl missing ↦ rw (check_item, missing) tt
        | inr (lot, found) ↦
            rw (check_item, found)
              (check_found lot_id qty lot (find-id lot_id (reverse open_lots) lot found)
                (mem-reverse.0 (find-Mem (λ l. l.id == lot_id) (reverse open_lots) found)) _ _ refl
                refl)
      ]

  abbrev Pairs : List (ℕ × ℤ) → ℤ → Result SelectionError (List (TaxLot × ℤ) × ℤ) → Type 0
  Pairs items total (ok (pairs, sum)) =
      (map item_of pairs ≡ items)
      × All (IsCovered open_lots) pairs
      × (sum ≡ total +ℤ sum_ℤ qty_of items)
  Pairs items total (err _) = Unit

  add_pair :
      (item : ℕ × ℤ) (items : List (ℕ × ℤ)) (total next : ℤ)
      → next ≡ total +ℤ item.1
      → (r : Result SelectionError (TaxLot × ℤ))
        (rest : Result SelectionError (List (TaxLot × ℤ) × ℤ))
      → Checks item r
      → Pairs items next rest
      → Pairs (item ∷ items) total (r >>= λ pair. rest >>= λ (pairs, sum). ok (pair ∷ pairs, sum))
  add_pair item items total next e (err x) rest h k = tt
  add_pair item items total next e (ok pair) (err x) h k = tt
  add_pair item items total next e (ok pair) (ok (pairs, sum)) (same, covered) (names, all, sums) =
      (
        (λ i. same i ∷ names i),
        (covered, all),
        sums ∙ ap (λ n. n +ℤ sum_ℤ qty_of items) e ∙ omega int_laws,
      )

  check_items-Pairs :
      (items : List (ℕ × ℤ)) (total : ℤ)
      → magnitude total + sum_of (λ i. magnitude (qty_of i)) items < limit
      → Pairs items total (check_items open_lots total items)
  unfolding check_items
  check_items-Pairs [] total small = (refl, tt, omega int_laws)
  check_items-Pairs ((lot_id, qty) ∷ items) total small =
      let exact : add total qty ≡ total +ℤ qty = add_exact total qty (omega arith) in
      add_pair (lot_id, qty) items total (add total qty) exact (check_item open_lots (lot_id, qty))
        (check_items open_lots (add total qty) items) (check_item-Checks (lot_id, qty))
        (check_items-Pairs items (add total qty)
          (rw exact (omega (arith, magnitude-add-le total qty))))

  same_total :
      (total quantity : ℤ)
      → (ltb_ℤ total quantity || ltb_ℤ quantity total) ≡ false
      → total ≡ quantity
  same_total total quantity h =
      let (e, f) = or_false (ltb_ℤ total quantity) (ltb_ℤ quantity total) h in
      eq_of_parts total quantity (ground arith)

  -- Let the quantities of a selection have fewer than 29 digits in sum of their magnitudes. If the
  -- validator lets it through, its pairs stand for the items of the selection in their order, each
  -- with the key of a lot of the pool and a positive quantity that this lot has, and the quantities
  -- add up to that of the disposal.
  pub validate-Selects :
      (selection : List (ℕ × ℤ)) (disposal_quantity : ℤ)
      → sum_of (λ i. magnitude (qty_of i)) selection < limit
      → Selects selection open_lots disposal_quantity
          (validate selection open_lots disposal_quantity)
  unfolding validate
  validate-Selects selection disposal_quantity small =
      go (check_items open_lots (pos 0) selection)
        (check_items-Pairs selection (pos 0) (omega arith))
    where
      last :
          (b : Bool) (total : ℤ) (pairs : List (TaxLot × ℤ))
          → Pairs selection (pos 0) (ok (pairs, total))
          → (ltb_ℤ total disposal_quantity || ltb_ℤ disposal_quantity total) ≡ b
          → Selects selection open_lots disposal_quantity
              (if b then err (sum_differs total) else ok pairs)
      last true total pairs h e = tt
      last false total pairs (names, all, sums) e = (
        names,
        all,
        zero-add (sum_ℤ qty_of selection) ∙ sym sums ∙ same_total total disposal_quantity e,
      )

      go :
          (r : Result SelectionError (List (TaxLot × ℤ) × ℤ))
          → Pairs selection (pos 0) r
          → Selects selection open_lots disposal_quantity (
              r >>= λ (pairs, total).
              if ltb_ℤ total disposal_quantity || ltb_ℤ disposal_quantity total
              then err (sum_differs total)
              else ok pairs)
      go (err e) h = tt
      go (ok (pairs, total)) h = last _ total pairs h refl
