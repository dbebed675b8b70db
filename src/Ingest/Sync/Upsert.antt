-- ===== src/Ingest/Sync/Upsert.antt =====
-- What `bulk_upsert` of ingestion/sync.py stores.
use lemon_ledger.Prelude.{
  ◌≡◌, refl, ◌∙◌, arith, Bool, Bool-cases, true, false, ◌||◌, List, [], ◌∷◌, ◌++◌, any, inl, inr,
}
use lemon_ledger.Models.{RawTransaction}
use lemon_ledger.Ingest.Sync.{same_tx, bulk_upsert}

-- The key of the transaction stands in the table.
abbrev pub Stored : RawTransaction → List RawTransaction → Type 0
Stored r table = any (same_tx r) table ≡ true

any-append :
    (r x : RawTransaction) (table : List RawTransaction)
    → any (same_tx r) (table ++ (x ∷ [])) ≡ (any (same_tx r) table || same_tx r x)
any-append r x [] = ground arith
any-append r x (y ∷ table) = elim (Bool-cases (same_tx r y)) [
  | inl fit ↦ rw fit refl
  | inr unfit ↦ rw unfit (any-append r x table)
]

same_tx_trans :
    (r x y : RawTransaction) → same_tx r x ≡ true → same_tx x y ≡ true → same_tx r y ≡ true
same_tx_trans r x y h k = ground arith

any-same :
    (r x : RawTransaction) (table : List RawTransaction)
    → same_tx r x ≡ true
    → Stored x table
    → Stored r table
any-same r x [] same h = ground (arith, h)
any-same r x (y ∷ table) same h = elim (Bool-cases (same_tx x y)) [
  | inl fit ↦ rw (same_tx_trans r x y same fit) refl
  | inr unfit ↦ elim (Bool-cases (same_tx r y)) [
    | inl here ↦ rw here refl
    | inr elsewhere ↦ rw elsewhere (any-same r x table same (rw unfit at h))
  ]
]

-- The upsert keeps what is stored.
pub upsert-keeps :
    (r : RawTransaction) (rows table : List RawTransaction)
    → Stored r table
    → Stored r (bulk_upsert same_tx rows table).0
unfolding bulk_upsert
upsert-keeps r [] table h = h
upsert-keeps r (x ∷ rows) table h = elim (Bool-cases (any (same_tx x) table)) [
  | inl known ↦ rw (bulk_upsert, known) (upsert-keeps r rows table h)
  | inr new ↦
      rw (bulk_upsert, new)
        (upsert-keeps r rows (table ++ (x ∷ [])) (any-append r x table ∙ rw h refl))
]

-- And it stores what it is given.
pub upsert-stores :
    (r : RawTransaction) (rows table : List RawTransaction)
    → Stored r rows
    → Stored r (bulk_upsert same_tx rows table).0
unfolding bulk_upsert
upsert-stores r [] table h = ground (arith, h)
upsert-stores r (x ∷ rows) table h = elim (Bool-cases (same_tx r x)) [
  | inl fit ↦ elim (Bool-cases (any (same_tx x) table)) [
    | inl known ↦ rw (bulk_upsert, known) (upsert-keeps r rows table (any-same r x table fit known))
    | inr new ↦
        rw (bulk_upsert, new)
          (upsert-keeps r rows (table ++ (x ∷ [])) (any-append r x table ∙ rw fit (or_true _)))
  ]
  | inr unfit ↦ elim (Bool-cases (any (same_tx x) table)) [
    | inl known ↦ rw (bulk_upsert, known) (upsert-stores r rows table (rw unfit at h))
    | inr new ↦ rw (bulk_upsert, new) (upsert-stores r rows (table ++ (x ∷ [])) (rw unfit at h))
  ]
]
  where
    or_true : (b : Bool) → (b || true) ≡ true
    or_true true = refl
    or_true false = refl
