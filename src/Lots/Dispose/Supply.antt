-- ===== src/Lots/Dispose/Supply.antt =====
-- On the slices that `_apply_dispose` and `_apply_gift_out` of domain/lots/engine.py consume.
use mathlib.Core.List.{Mem}
use lemon_ledger.Prelude.{
  ℕ, ◌+◌, ◌<◌, ◌≡◌, refl, Bool, true, false, ltb, List, [], ◌∷◌, ◌++◌, map, sum_of, All, All-map,
  All-of_map, some, ok, err, ◌>>=◌, if◌then◌else◌, subst, sym,
}
use lemon_ledger.Models.{
  Session, Try, ClassifiedTransaction, TaxLot, insufficient_lots, invalid_operation,
  division_by_zero, insufficient_lots_reason, insufficient, add_exception,
}
use lemon_ledger.Decimal.{limit}
use lemon_ledger.Lots.Methods.{LotMethod, order}
use lemon_ledger.Lots.Methods.Orders.{Rearranges, order-Rearranges}
use lemon_ledger.Lots.Pools.{open_lots}
use lemon_ledger.Lots.Pools.Open.{IsOpen, open_lots-exact}
use lemon_ledger.Lots.Consume.{ConsumptionSlice, consume, consume_from}
use lemon_ledger.Lots.Consume.OldestFirst.{slice_lot, Begins, Walked, consume_from-Begins}
use lemon_ledger.Lots.Consume.Totals.{Consumes, HasSome, IsWithin, qty, remaining, consume-Consumes}
use lemon_ledger.Lots.Acquire.{exception_row, record_exception}
use lemon_ledger.Lots.Dispose.{consumed, or_record, dispose_token}

pub consumed-Consumes :
    (s : Session) (event : ClassifiedTransaction) (token_id : ℕ)
    → event.amount < limit
    → Consumes (open_lots s event.wallet_id token_id) event.amount (consumed s event token_id)
unfolding consumed
consumed-Consumes s event token_id small =
    consume-Consumes _ (open_lots s event.wallet_id token_id) event.amount small (
      All-map (λ l. Mem l s.lots × IsOpen s event.wallet_id token_id l) HasSome
        (λ lot (_, o). o.has_some) _ (open_lots-exact s event.wallet_id token_id).0)

module _ (P : TaxLot → Type 0) where
  All-first : (xs ys : List TaxLot) → All P (xs ++ ys) → All P xs
  All-first [] ys h = tt
  All-first (x ∷ xs) ys (h, hs) = (h, All-first xs ys hs)

  -- What holds of every lot holds of the lots of the slices.
  abbrev TakesFrom : List TaxLot → Try (List ConsumptionSlice) → Type 0
  TakesFrom lots (ok slices) = All (λ s. P s.lot) slices
  TakesFrom lots (err _) = Unit

  begun :
      (lots : List TaxLot) (slices : List ConsumptionSlice)
      → All P lots
      → Begins lots slices
      → All (λ s. P s.lot) slices
  begun lots slices all (left, e) =
      All-of_map P slice_lot slices
        (All-first (map slice_lot slices) left (subst (All P) (sym e) all))

  consume-TakesFrom :
      (method : LotMethod) (lots : List TaxLot) (quantity : ℕ)
      → All P lots
      → TakesFrom lots (consume method lots quantity)
  unfolding consume
  consume-TakesFrom method lots quantity all =
      go (order method lots) (order-Rearranges (λ _. 0) P method lots)
    where
      enough :
          (b : Bool) (slices : List ConsumptionSlice) (left : ℕ)
          → All (λ s. P s.lot) slices
          → TakesFrom lots (if b then err (insufficient_lots left) else ok slices)
      enough true slices left h = tt
      enough false slices left h = h

      walk :
          (ordered : List TaxLot) (w : Try (List ConsumptionSlice × ℕ))
          → All P ordered
          → Walked ordered w
          → TakesFrom lots (
              w >>= λ (slices, left).
              if ltb 0 left then err (insufficient_lots left) else ok slices)
      walk ordered (err e) h k = tt
      walk ordered (ok (slices, left)) h k =
          enough (ltb 0 left) slices left (begun ordered slices h k)

      go :
          (r : Try (List TaxLot))
          → Rearranges (λ _. 0) P lots r
          → TakesFrom lots (
              r >>= λ ordered. consume_from ordered quantity >>= λ (slices, left).
              if ltb 0 left then err (insufficient_lots left) else ok slices)
      go (err e) h = tt
      go (ok ordered) (sums, keeps) =
          walk ordered (consume_from ordered quantity) (keeps all)
            (consume_from-Begins ordered quantity)

consumed-TakesFrom :
    (s : Session) (event : ClassifiedTransaction) (token_id : ℕ)
    → TakesFrom
        (λ l. Mem l s.lots × IsOpen s event.wallet_id token_id l)
        (open_lots s event.wallet_id token_id)
        (consumed s event token_id)
unfolding consumed
consumed-TakesFrom s event token_id =
    consume-TakesFrom (λ l. Mem l s.lots × IsOpen s event.wallet_id token_id l) _
      (open_lots s event.wallet_id token_id) event.amount
      (open_lots-exact s event.wallet_id token_id).0

-- How the consumption of an event's lots can end, and what the disposal does where they are short.
abbrev pub Supplies : Session → ClassifiedTransaction → ℕ → Try (List ConsumptionSlice) → Type 0
Supplies s event token_id (ok slices) =
    (sum_of qty slices ≡ event.amount)
    × All IsWithin slices
    × All (λ c. Mem c.lot s.lots × IsOpen s event.wallet_id token_id c.lot) slices
Supplies s event token_id (err (insufficient_lots unmatched)) =
    (0 < unmatched)
    × (unmatched + sum_of remaining (open_lots s event.wallet_id token_id) ≡ event.amount)
    × (dispose_token s event token_id
        ≡ ok (
            add_exception
              (exception_row event insufficient_lots_reason (insufficient event.classification)
                (some unmatched))
              s))
Supplies s event token_id (err _) = Unit

-- Let the amount of the event be below 10^10 tokens. Whatever the method of the entity, if the
-- lots are consumed without an error, the slices add up to the amount, each takes something and no
-- more than its lot has, and each lot is one of the session that is open for the wallet and the
-- token. If the lots are short, the unmatched quantity is positive and is what the open lots lack,
-- and the disposal returns the session with one more exception, which names the event and has this
-- quantity, and with nothing else changed.
pub consumed-Supplies :
    (s : Session) (event : ClassifiedTransaction) (token_id : ℕ)
    → event.amount < limit
    → Supplies s event token_id (consumed s event token_id)
unfolding dispose_token or_record record_exception
consumed-Supplies s event token_id small =
    go (consumed s event token_id) refl (consumed-Consumes s event token_id small)
      (consumed-TakesFrom s event token_id)
  where
    go :
        (r : Try (List ConsumptionSlice))
        → consumed s event token_id ≡ r
        → Consumes (open_lots s event.wallet_id token_id) event.amount r
        → TakesFrom
            (λ l. Mem l s.lots × IsOpen s event.wallet_id token_id l)
            (open_lots s event.wallet_id token_id)
            r
        → Supplies s event token_id r
    go (ok slices) e (total, within, enough) from = (total, within, from)
    go (err (insufficient_lots u)) e (some_lacks, lacks) from = (some_lacks, lacks, rw e refl)
    go (err invalid_operation) e c from = tt
    go (err division_by_zero) e c from = tt
