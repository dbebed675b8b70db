-- ===== src/Lots/Methods/Fifo.antt =====
-- On `Fifo.order` of domain/lots/methods.py.
use lemon_ledger.Prelude.{
  ◌≤◌, ◌<◌, ◌≡◌, arith, Bool-cases, true, false, inl, inr, ◌⊎◌, List, [], ◌∷◌, All, All-map,
  All-insert, insert, sorted,
}
use lemon_ledger.Models.{TaxLot}
use lemon_ledger.Lots.Methods.{oldest_first}

-- The first lot was acquired earlier than the other, or at the same moment and has no greater key.
abbrev pub IsOlder : TaxLot → TaxLot → Type 0
IsOlder l m = (l.acquired_at < m.acquired_at) ⊎ (l.acquired_at ≡ m.acquired_at) × (l.id ≤ m.id)

-- Every lot is older than all that follow it.
abbrev pub IsOldestFirst : List TaxLot → Type 0
IsOldestFirst [] = Unit
IsOldestFirst (l ∷ lots) = All (IsOlder l) lots × IsOldestFirst lots

IsOlder-trans : (l m n : TaxLot) → IsOlder l m → IsOlder m n → IsOlder l n
IsOlder-trans l m n (inl h) (inl k) = inl (omega arith)
IsOlder-trans l m n (inl h) (inr k) = inl (omega arith)
IsOlder-trans l m n (inr h) (inl k) = inl (omega arith)
IsOlder-trans l m n (inr h) (inr k) = inr (omega arith, omega arith)

earlier-IsOlder : (l m : TaxLot) → oldest_first l m ≡ true → IsOlder l m
earlier-IsOlder l m h = ground arith

not_later-IsOlder : (l m : TaxLot) → oldest_first m l ≡ false → IsOlder l m
not_later-IsOlder l m h = ground arith

insert-IsOldestFirst :
    (l : TaxLot) (lots : List TaxLot)
    → IsOldestFirst lots
    → IsOldestFirst (insert oldest_first l lots)
unfolding insert
insert-IsOldestFirst l [] h = (tt, tt)
insert-IsOldestFirst l (m ∷ lots) (head, rest) = elim (Bool-cases (oldest_first m l)) [
  | inl earlier ↦ rw earlier (
    All-insert oldest_first (IsOlder m) l lots (earlier-IsOlder m l earlier) head,
    insert-IsOldestFirst l lots rest,
  )
  | inr later ↦
      let older = not_later-IsOlder l m later in
      rw later (
        (older, All-map (IsOlder m) (IsOlder l) (λ n k. IsOlder-trans l m n older k) lots head),
        (head, rest),
      )
]

pub sorted-IsOldestFirst : (lots : List TaxLot) → IsOldestFirst (sorted oldest_first lots)
unfolding sorted
sorted-IsOldestFirst [] = tt
sorted-IsOldestFirst (l ∷ lots) = insert-IsOldestFirst l _ (sorted-IsOldestFirst lots)
