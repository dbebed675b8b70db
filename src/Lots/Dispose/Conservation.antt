-- ===== src/Lots/Dispose/Conservation.antt =====
-- On the quantities of the lots before and after `_apply_dispose` of domain/lots/engine.py.
use lemon_ledger.Prelude.{
  ℕ, ◌+◌, ◌≤◌, ◌<◌, ◌≡◌, refl, sym, ap, ◌∙◌, arith, Bool, Bool-cases, true, false, ◌==◌, inl, inr,
  ◌⊎◌, List, [], ◌∷◌, map, filter, sum_of, All, sum_of-sorted, sum_of-map, ok, err, ◌>>=◌, ℤ,
}
use lemon_ledger.Models.{
  Session, Try, ClassifiedTransaction, TaxLot, Runtime, SelectionStrategy, LotProcessingException,
  insufficient_lots, invalid_operation, division_by_zero, set_lot, add_disposal, add_exception,
}
use lemon_ledger.Decimal.{limit, add}
use lemon_ledger.Lots.Methods.{oldest_first}
use lemon_ledger.Lots.Pools.{open_lots, canonical_pool_key, is_open, resolve_basis_method}
use lemon_ledger.Lots.Consume.{ConsumptionSlice}
use lemon_ledger.Lots.Consume.Totals.{remaining, qty, IsWithin, Consumes}
use lemon_ledger.Lots.Consume.Picks.{IsPicked, PicksAll, consume-Picks}
use lemon_ledger.Lots.Lines.{DisposalLine, line_of, lines_from, build_lines, share}
use lemon_ledger.Lots.Acquire.{record_exception}
use lemon_ledger.Lots.Dispose.{
  write_disposals, or_record, consumed, dispose_token, disposal_proceeds,
}
use lemon_ledger.Lots.Dispose.Supply.{consumed-Consumes}
use lemon_ledger.Lots.Dispose.Draws.{
  at, count, remaining_at, IsSmall, draw, Distinct, Covered, draw-sum,
}

abbrev pub of_slice : ConsumptionSlice → ℕ × ℕ
of_slice s = (s.lot.id, s.quantity_consumed)

abbrev pub of_line : DisposalLine → ℕ × ℕ
of_line l = (l.lot.id, l.quantity_consumed)

-- No key twice among the lots of the slices.
abbrev among : ℕ → List ConsumptionSlice → ℕ
among k slices = sum_of (λ s. at k (λ _. 1) s.lot) slices

others :
    (k : ℕ) (slices : List ConsumptionSlice)
    → among k slices ≡ 0
    → All (λ e. e.0 == k ≡ false) (map of_slice slices)
others k [] h = tt
others k (s ∷ slices) h = elim (Bool-cases (s.lot.id == k)) [
  | inl same ↦ never (rw same at h)
  | inr differ ↦ (differ, others k slices (omega (arith, rw differ at h)))
]
  where
    never : 1 + among k slices ≡ 0 → All (λ e. e.0 == k ≡ false) (map of_slice (s ∷ slices))
    never e = absurd (one_more e)
      where
        one_more : 1 + among k slices ≡ 0 → ⊥
        one_more e = omega arith

==_refl : (k : ℕ) → k == k ≡ true
==_refl k = ground arith

pub slices-Distinct :
    (slices : List ConsumptionSlice)
    → ((k : ℕ) → among k slices ≤ 1)
    → Distinct (map of_slice slices)
slices-Distinct [] once = tt
slices-Distinct (s ∷ slices) once = (
  others s.lot.id slices (head (rw (==_refl s.lot.id) at (once s.lot.id))),
  slices-Distinct slices λ k. omega (arith, once k),
)
  where
    head : 1 + among s.lot.id slices ≤ 1 → among s.lot.id slices ≡ 0
    head h = omega arith

pub slices-Covered :
    (lots : List TaxLot) (slices : List ConsumptionSlice)
    → IsPicked lots slices
    → All IsWithin slices
    → Covered lots (map of_slice slices)
slices-Covered lots [] picked within = tt
slices-Covered lots (s ∷ slices) picked ((some_taken, enough), rest) = (
  head (rw (==_refl s.lot.id) at (picked (at s.lot.id remaining))),
  slices-Covered lots slices (λ f. omega (arith, picked f)) rest,
)
  where
    head :
        s.lot.quantity_remaining + sum_of (λ t. at s.lot.id remaining t.lot) slices
          ≤ remaining_at s.lot.id lots
        → s.quantity_consumed ≤ remaining_at s.lot.id lots
    head h = omega arith

sum_of-filter :
    (f : TaxLot → ℕ) (p : TaxLot → Bool) (lots : List TaxLot)
    → sum_of f (filter p lots) ≤ sum_of f lots
sum_of-filter f p [] = omega arith
sum_of-filter f p (l ∷ lots) = elim (Bool-cases (p l)) [
  | inl fit ↦ rw fit (omega (arith, sum_of-filter f p lots))
  | inr unfit ↦ rw unfit (omega (arith, sum_of-filter f p lots))
]

pub open_lots-le :
    (f : TaxLot → ℕ) (s : Session) (wallet_id token_id : ℕ)
    → sum_of f (open_lots s wallet_id token_id) ≤ sum_of f s.lots
unfolding open_lots
open_lots-le f s wallet_id token_id = omega (
  arith,
  sum_of-sorted oldest_first f (filter (is_open wallet_id (canonical_pool_key s token_id)) s.lots),
  sum_of-filter f (is_open wallet_id (canonical_pool_key s token_id)) s.lots,
)

-- The lines draw what the slices do.
abbrev pub Draws : List ConsumptionSlice → Try (List DisposalLine) → Type 0
Draws slices (ok lines) = map of_line lines ≡ map of_slice slices
Draws slices (err _) = Unit

module _ (runtime : Runtime) (p : ℤ) (at_moment : ℕ) (strategy : SelectionStrategy)
    (total : ℕ) where
  lines_from-Draws :
      (allocated : ℤ) (slices : List ConsumptionSlice)
      → Draws slices (lines_from runtime p at_moment strategy total allocated slices)
  unfolding lines_from line_of
  lines_from-Draws allocated [] = refl
  lines_from-Draws allocated (s ∷ []) = refl
  lines_from-Draws allocated (s ∷ t ∷ slices) =
      go (share s.quantity_consumed total p) λ x. lines_from-Draws (add allocated x) (t ∷ slices)
    where
      rest :
          (x : ℤ) (r : Try (List DisposalLine))
          → Draws (t ∷ slices) r
          → Draws
              (s ∷ t ∷ slices)
              (r >>= λ lines. ok (line_of runtime p at_moment strategy total s x ∷ lines))
      rest x (err e) h = tt
      rest x (ok lines) h = λ i. of_slice s ∷ h i

      go :
          (m : Try ℤ)
          → ((x : ℤ)
              → Draws
                  (t ∷ slices)
                  (lines_from runtime p at_moment strategy total (add allocated x) (t ∷ slices)))
          → Draws (s ∷ t ∷ slices) (
              m >>= λ x.
              lines_from runtime p at_moment strategy total (add allocated x) (t ∷ slices)
              >>= λ lines. ok (line_of runtime p at_moment strategy total s x ∷ lines))
      go (err e) h = tt
      go (ok x) h = rest x _ (h x)

pub build_lines-Draws :
    (runtime : Runtime) (slices : List ConsumptionSlice) (p : ℤ) (at_moment : ℕ)
    (strategy : SelectionStrategy)
    → Draws slices (build_lines runtime slices p at_moment strategy)
unfolding build_lines
build_lines-Draws runtime slices p at_moment strategy =
    lines_from-Draws runtime p at_moment strategy _ _ slices

write_disposals-lots :
    (event : ClassifiedTransaction) (lines : List DisposalLine) (s : Session)
    → (write_disposals event lines s).lots ≡ draw (map of_line lines) s.lots
unfolding write_disposals add_disposal set_lot
write_disposals-lots event [] s = refl
write_disposals-lots event (line ∷ lines) s = write_disposals-lots event lines _

-- A disposal that returns has taken the amount from the lots, or has only recorded an exception.
abbrev pub Spends : Session → ℕ → Try Session → Type 0
Spends s amount (ok t) =
    (sum_of remaining t.lots + amount ≡ sum_of remaining s.lots)
    ⊎ ((x : LotProcessingException) × (t ≡ add_exception x s))
Spends s amount (err _) = Unit

-- What the lots of the session must be like: no key twice, and quantities below 10^10 tokens.
pub record IsSound (s : Session) : Type 0 where
  pub unique : (k : ℕ) → count k s.lots ≤ 1
  pub small : All IsSmall s.lots

written-sum :
    (s : Session) (event : ClassifiedTransaction) (token_id : ℕ) (slices : List ConsumptionSlice)
    (lines : List DisposalLine)
    → IsSound s
    → map of_line lines ≡ map of_slice slices
    → IsPicked (open_lots s event.wallet_id token_id) slices
    → All IsWithin slices
    → sum_of remaining (write_disposals event lines s).lots + sum_of qty slices
      ≡ sum_of remaining s.lots
written-sum s event token_id slices lines sound same picked within =
    rw (write_disposals-lots event lines s, same, sym (sum_of-map (λ d. d.1) of_slice slices))
      (draw-sum (map of_slice slices) s.lots sound.unique sound.small
        (slices-Distinct slices λ k. omega (arith, all (at k (λ _. 1)), sound.unique k))
        (slices-Covered s.lots slices all within))
  where
    all : IsPicked s.lots slices
    all f = omega (arith, picked f, open_lots-le f s event.wallet_id token_id)

pub consumed-Picks :
    (s : Session) (event : ClassifiedTransaction) (token_id : ℕ)
    → PicksAll (open_lots s event.wallet_id token_id) (consumed s event token_id)
unfolding consumed
consumed-Picks s event token_id =
    consume-Picks _ (open_lots s event.wallet_id token_id) event.amount

-- Let no two lots have the same key, and let every quantity be below 10^10 tokens. If the disposal
-- of an event returns, what is left of all lots together is less by exactly the amount of the
-- event, or the disposal has recorded an exception and changed nothing else.
pub dispose_token-Spends :
    (s : Session) (event : ClassifiedTransaction) (token_id : ℕ)
    → IsSound s
    → event.amount < limit
    → Spends s event.amount (dispose_token s event token_id)
unfolding dispose_token or_record record_exception
dispose_token-Spends s event token_id sound small =
    go (consumed s event token_id) (consumed-Consumes s event token_id small)
      (consumed-Picks s event token_id)
  where
    written :
        (slices : List ConsumptionSlice) (r : Try (List DisposalLine))
        → Draws slices r
        → Consumes (open_lots s event.wallet_id token_id) event.amount (ok slices)
        → IsPicked (open_lots s event.wallet_id token_id) slices
        → Spends s event.amount (r >>= λ lines. ok (write_disposals event lines s))
    written slices (err e) same c picked = tt
    written slices (ok lines) same (total, within, supply) picked = inl (
        ap (λ n. sum_of remaining (write_disposals event lines s).lots + n) (sym total)
        ∙ written-sum s event token_id slices lines sound same picked within)

    go :
        (r : Try (List ConsumptionSlice))
        → Consumes (open_lots s event.wallet_id token_id) event.amount r
        → PicksAll (open_lots s event.wallet_id token_id) r
        → Spends s event.amount (
            or_record s event r (λ slices.
              build_lines s.runtime slices
                (disposal_proceeds event)
                event.occurred_at
                (resolve_basis_method s event).1
              >>= λ lines. ok (write_disposals event lines s)))
    go (ok slices) c picked = written slices _ (build_lines-Draws s.runtime slices _ _ _) c picked
    go (err (insufficient_lots u)) c picked = inr (_, refl)
    go (err invalid_operation) c picked = tt
    go (err division_by_zero) c picked = tt
