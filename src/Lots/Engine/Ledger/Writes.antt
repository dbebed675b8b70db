-- ===== src/Lots/Engine/Ledger/Writes.antt =====
-- On the disposals and the new lots that the engine of domain/lots/engine.py writes.
use lemon_ledger.Prelude.{
  ℕ, ◌+◌, ◌≤◌, ◌<◌, ◌≡◌, sym, ap, ◌∙◌, arith, Bool-cases, true, false, ◌==◌, ==_iff, inl, inr,
  if◌then◌else◌, List, [], ◌∷◌, ◌++◌, update, sum_of-append, All, All-append, map,
}
use lemon_ledger.Models.{
  Session, ClassifiedTransaction, TaxLot, LotDisposal, set_lot, add_lot, add_disposal,
}
use lemon_ledger.Decimal.{limit}
use lemon_ledger.Lots.Lines.{DisposalLine}
use lemon_ledger.Lots.Dispose.{decrement, disposal_of, write_disposals}
use lemon_ledger.Lots.Dispose.Draws.{
  at, count, remaining_at, absent, decrement_lem, decrement-id, Distinct, Covered, still_Covered,
}
use lemon_ledger.Lots.Dispose.Conservation.{of_line}
use lemon_ledger.Lots.Engine.Ledger.{
  IsLedger, IsBacked, taken_for, count-update, decrement-quantity,
}

module _ (d : LotDisposal) (ds : List LotDisposal) where
  taken_for-snoc :
      (k : ℕ)
      → taken_for k (ds ++ (d ∷ []))
        ≡ taken_for k ds + (if d.lot_id == k then d.quantity_consumed else 0)
  taken_for-snoc k =
      omega
        (arith, sum_of-append (λ e. if e.lot_id == k then e.quantity_consumed else 0) ds (d ∷ []))

  -- The lots with other keys.
  others-IsBacked :
      (c : ℕ) (lots : List TaxLot)
      → count d.lot_id lots ≡ 0
      → All (IsBacked ds) lots
      → All (IsBacked (ds ++ (d ∷ []))) (update (λ l. l.id == d.lot_id) (decrement c) lots)
  others-IsBacked c [] none_there h = tt
  others-IsBacked c (l ∷ lots) none_there ((b, small), rest) =
      elim (Bool-cases (l.id == d.lot_id)) [
        | inl same ↦ absurd (one_there (rw same at none_there))
        | inr other ↦ rw other (
          (omega (arith, rw (flipped other) at (taken_for-snoc l.id)), small),
          others-IsBacked c lots (omega (arith, rw other at none_there)) rest,
        )
      ]
    where
      one_there : 1 + count d.lot_id lots ≡ 0 → ⊥
      one_there e = omega arith

      flipped : l.id == d.lot_id ≡ false → d.lot_id == l.id ≡ false
      flipped e = ground arith

  -- One disposal, with what is taken for it.
  taken-IsBacked :
      (lots : List TaxLot)
      → count d.lot_id lots ≤ 1
      → d.quantity_consumed ≤ remaining_at d.lot_id lots
      → All (IsBacked ds) lots
      → All
          (IsBacked (ds ++ (d ∷ [])))
          (update (λ l. l.id == d.lot_id) (decrement d.quantity_consumed) lots)
  taken-IsBacked [] one enough h = tt
  taken-IsBacked (l ∷ lots) one enough ((b, small), rest) = elim (Bool-cases (l.id == d.lot_id)) [
    | inl same ↦ rw same (
      head same (rw same at one) (rw same at enough),
      others-IsBacked d.quantity_consumed lots (alone (rw same at one)) rest,
    )
    | inr other ↦ rw other (
      (omega (arith, rw (flipped other) at (taken_for-snoc l.id)), small),
      taken-IsBacked lots (omega (arith, rw other at one)) (omega (arith, rw other at enough)) rest,
    )
  ]
    where
      flipped : l.id == d.lot_id ≡ false → d.lot_id == l.id ≡ false
      flipped e = ground arith

      straight : l.id == d.lot_id ≡ true → d.lot_id == l.id ≡ true
      straight e = ground arith

      alone : 1 + count d.lot_id lots ≤ 1 → count d.lot_id lots ≡ 0
      alone e = omega arith

      head :
          l.id == d.lot_id ≡ true
          → 1 + count d.lot_id lots ≤ 1
          → d.quantity_consumed ≤ l.quantity_remaining + remaining_at d.lot_id lots
          → IsBacked (ds ++ (d ∷ [])) (decrement d.quantity_consumed l)
      head same one enough =
          rw (decrement-id d.quantity_consumed l, decrement-quantity d.quantity_consumed l)
            (
              omega (
                arith,
                decrement_lem d.quantity_consumed l (omega arith),
                absent d.lot_id lots (alone one),
                rw (straight same) at (taken_for-snoc l.id),
              ),
              small,
            )

  unused_key :
      (lots : List TaxLot) (k : ℕ)
      → d.quantity_consumed ≤ remaining_at d.lot_id lots
      → count k lots ≡ 0
      → taken_for k ds ≡ 0
      → taken_for k (ds ++ (d ∷ [])) ≡ 0
  unused_key lots k enough none_there before = elim (Bool-cases (d.lot_id == k)) [
    | inl same ↦ omega (
      arith,
      rw same at (taken_for-snoc k),
      absent k lots none_there,
      ap (λ j. remaining_at j lots) ((==_iff d.lot_id k).0 same),
    )
    | inr other ↦ omega (arith, rw other at (taken_for-snoc k))
  ]

-- A line of a disposal that takes no more than its lot has.
line-IsLedger :
    (event : ClassifiedTransaction) (line : DisposalLine) (s : Session)
    → line.quantity_consumed ≤ remaining_at line.lot.id s.lots
    → IsLedger s
    → IsLedger (
        add_disposal
          (disposal_of event line)
          (set_lot line.lot.id (decrement line.quantity_consumed) s))
unfolding add_disposal set_lot disposal_of
line-IsLedger event line s enough h =
    let d = disposal_of event line in
    record {
      unique = λ j. omega (
        arith,
        count-update j line.lot.id (decrement line.quantity_consumed) s.lots
            (decrement-id line.quantity_consumed),
        h.unique j,
      );
      backed = taken-IsBacked d s.disposals s.lots (h.unique line.lot.id) enough h.backed;
      unused = λ n later. (
        omega (
          arith,
          count-update (s.runtime.uuid7 n) line.lot.id (decrement line.quantity_consumed) s.lots
              (decrement-id line.quantity_consumed),
          (h.unused n later).0,
        ),
        unused_key d s.disposals s.lots (s.runtime.uuid7 n) enough (h.unused n later).0
            (h.unused n later).1,
      );
      differ = h.differ;
    }

pub write_disposals-IsLedger :
    (event : ClassifiedTransaction) (lines : List DisposalLine) (s : Session)
    → Distinct (map of_line lines)
    → Covered s.lots (map of_line lines)
    → IsLedger s
    → IsLedger (write_disposals event lines s)
unfolding write_disposals add_disposal set_lot
write_disposals-IsLedger event [] s apart enough h = h
write_disposals-IsLedger event (line ∷ lines) s (others, apart) (enough, rest) h =
    write_disposals-IsLedger event lines _ apart
      (still_Covered (of_line line) s.lots (map of_line lines) others rest)
      (line-IsLedger event line s enough h)

-- A new lot under the key that is drawn for it.
pub add_lot-IsLedger :
    (l : TaxLot) (s : Session)
    → l.id ≡ s.runtime.uuid7 s.drawn
    → l.quantity_remaining ≤ l.quantity
    → l.quantity < limit
    → IsLedger s
    → IsLedger (add_lot l s)
unfolding add_lot
add_lot-IsLedger l s key whole small h =
    let (free, unspent) = h.unused s.drawn (omega arith) in
    record {
      unique = λ k. elim (Bool-cases (l.id == k)) [
        | inl same ↦
            omega (
              arith,
              rw same at (snoc k),
              h.unique k,
              ap (λ j. count j s.lots) (key_of k same),
              free,
            )
        | inr other ↦ omega (arith, rw other at (snoc k), h.unique k)
      ];
      backed =
          All-append (IsBacked s.disposals) (l ∷ []) s.lots
            ((omega (arith, ap (λ j. taken_for j s.disposals) key, unspent), small), tt) h.backed;
      unused = λ n later. (
        elim (Bool-cases (l.id == s.runtime.uuid7 n)) [
          | inl same ↦ absurd (omega (arith, h.differ s.drawn n (key_of (s.runtime.uuid7 n) same)))
          | inr other ↦
              omega (arith, rw other at (snoc (s.runtime.uuid7 n)), (h.unused n (omega arith)).0)
        ],
        (h.unused n (omega arith)).1,
      );
      differ = h.differ;
    }
  where
    snoc : (k : ℕ) → count k (s.lots ++ (l ∷ [])) ≡ count k s.lots + (if l.id == k then 1 else 0)
    snoc k = omega (arith, sum_of-append (at k (λ _. 1)) s.lots (l ∷ []))

    key_of : (k : ℕ) → l.id == k ≡ true → s.runtime.uuid7 s.drawn ≡ k
    key_of k same = sym key ∙ (==_iff l.id k).0 same
