-- ===== src/Lots/Pools/Open.antt =====
-- On the query `open_lots` of domain/lots/engine.py.
use mathlib.Core.List.{Mem, mem-cons_self, mem-cons_of_mem}
use mathlib.Core.List.Perm
use lemon_ledger.Prelude.{
  ℕ, ◌<◌, ◌≡◌, arith, refl, ltb→lt, ltb, ◌==◌, opt_eq, is_some, not, Bool, Bool-cases, true, false,
  ◌&&◌, inl, inr, if◌then◌else◌, Option, none, some, find, List, [], ◌∷◌, filter, All, All-sorted,
  All-map, sorted, sorted-perm,
}
use mathlib.Core.Option
use lemon_ledger.Models.{Session, TaxLot, TokenAssetMembership}
use lemon_ledger.Lots.Pools.{
  PoolKey, logical, token, canonical_pool_key, in_pool, is_open, open_lots,
}
use lemon_ledger.Lots.Methods.{oldest_first}

-- The logical asset that the token belongs to.
abbrev pub asset_of_token : Session → ℕ → Option ℕ
asset_of_token s token_id =
    Option.map (λ m. m.logical_asset_id) (find (λ m. m.token_id == token_id) s.memberships)

-- Lots of a token with a logical asset are those of the asset, and lots of a token without one are
-- those of the token that have no asset.
abbrev pub FitsPool : Option ℕ → ℕ → TaxLot → Type 0
FitsPool (some asset_id) token_id lot = lot.logical_asset_id ≡ some asset_id
FitsPool none token_id lot = (lot.acquired_token_id ≡ token_id) × (lot.logical_asset_id ≡ none)

-- What makes a lot one that the wallet can spend for the token.
pub record IsOpen (s : Session) (wallet_id token_id : ℕ) (lot : TaxLot) : Type 0 where
  pub of_wallet : lot.wallet_id ≡ wallet_id
  pub has_some : 0 < lot.quantity_remaining
  pub of_pool : FitsPool (asset_of_token s token_id) token_id lot

abbrev pub pool_of : Option ℕ → ℕ → PoolKey
pool_of none token_id = token token_id
pool_of (some asset_id) token_id = logical asset_id

pub canonical_pool_key-pool_of :
    (s : Session) (token_id : ℕ)
    → canonical_pool_key s token_id ≡ pool_of (asset_of_token s token_id) token_id
unfolding canonical_pool_key
canonical_pool_key-pool_of s token_id = go (find (λ m. m.token_id == token_id) s.memberships)
  where
    go :
        (o : Option TokenAssetMembership)
        → elim o as (λ _. PoolKey) [
          | none ↦ token token_id
          | some membership ↦ logical membership.logical_asset_id
        ]
          ≡ pool_of (Option.map (λ m. m.logical_asset_id) o) token_id
    go none = refl
    go (some m) = refl

absent : (o : Option ℕ) → not (is_some o) ≡ true → o ≡ none
absent none h = refl
absent (some a) h = ground arith

present : (o : Option ℕ) (a : ℕ) → opt_eq o (some a) ≡ true → o ≡ some a
present none a h = ground arith
present (some b) a h = ground arith

present_back : (o : Option ℕ) (a : ℕ) → o ≡ some a → opt_eq o (some a) ≡ true
present_back o a h = rw h (ground arith)

and_parts : (a b : Bool) → (a && b) ≡ true → (a ≡ true) × (b ≡ true)
and_parts a b h = ground arith

in_pool-FitsPool :
    (o : Option ℕ) (token_id : ℕ) (lot : TaxLot)
    → in_pool (pool_of o token_id) lot ≡ true
    → FitsPool o token_id lot
in_pool-FitsPool none token_id lot h =
    let (same, free) =
      and_parts (lot.acquired_token_id == token_id) (not (is_some lot.logical_asset_id)) h in
    (ground arith, absent lot.logical_asset_id free)
in_pool-FitsPool (some a) token_id lot h = present lot.logical_asset_id a h

FitsPool-in_pool :
    (o : Option ℕ) (token_id : ℕ) (lot : TaxLot)
    → FitsPool o token_id lot
    → in_pool (pool_of o token_id) lot ≡ true
FitsPool-in_pool none token_id lot (same, free) = rw (same, free) (ground arith)
FitsPool-in_pool (some a) token_id lot h = present_back lot.logical_asset_id a h

module _ (s : Session) (wallet_id token_id : ℕ) where
  is_open-IsOpen :
      (lot : TaxLot)
      → is_open wallet_id (canonical_pool_key s token_id) lot ≡ true
      → IsOpen s wallet_id token_id lot
  unfolding is_open
  is_open-IsOpen lot h =
      let (w, rest) =
        and_parts (lot.wallet_id == wallet_id)
          (ltb 0 lot.quantity_remaining && in_pool (canonical_pool_key s token_id) lot) h in
      let (q, p) =
        and_parts (ltb 0 lot.quantity_remaining) (in_pool (canonical_pool_key s token_id) lot)
          rest in
      record {
        of_wallet = ground arith;
        has_some = ltb→lt _ _ q;
        of_pool =
            in_pool-FitsPool (asset_of_token s token_id) token_id lot
              (rw (canonical_pool_key-pool_of s token_id) at p);
      }

  IsOpen-is_open :
      (lot : TaxLot)
      → IsOpen s wallet_id token_id lot
      → is_open wallet_id (canonical_pool_key s token_id) lot ≡ true
  unfolding is_open
  IsOpen-is_open lot o =
      let fits = FitsPool-in_pool (asset_of_token s token_id) token_id lot o.of_pool in
      let w = o.of_wallet in
      let q = o.has_some in rw (canonical_pool_key-pool_of s token_id, fits) (ground arith)

module _ (p : TaxLot → Bool) where
  filter-fits :
      (lots all : List TaxLot)
      → ((l : TaxLot) → Mem l lots → Mem l all)
      → All (λ l. (p l ≡ true) × Mem l all) (filter p lots)
  filter-fits [] all within = tt
  filter-fits (l ∷ lots) all within =
      let rest = filter-fits lots all (λ m h. within m (mem-cons_of_mem l h)) in
      elim (Bool-cases (p l)) [
        | inl fit ↦ rw fit ((fit, within l (mem-cons_self {a = l} {l = lots})), rest)
        | inr unfit ↦ rw unfit rest
      ]

  filter-keeps : (lots : List TaxLot) → All (λ l. p l ≡ true → Mem l (filter p lots)) lots
  filter-keeps [] = tt
  filter-keeps (l ∷ lots) = go (filter-keeps lots) (p l) refl
    where
      go :
          All (λ m. p m ≡ true → Mem m (filter p lots)) lots
          → (b : Bool) → p l ≡ b
          → (p l ≡ true → Mem l (if b then l ∷ filter p lots else filter p lots))
            × All (λ m. p m ≡ true → Mem m (if b then l ∷ filter p lots else filter p lots)) lots
      go kept true e = (
        (λ _. mem-cons_self {a = l} {l = filter p lots}),
        All-map (λ m. p m ≡ true → Mem m (filter p lots)) _ (λ m k h. mem-cons_of_mem l (k h)) lots
            kept,
      )
      go kept false e = ((λ h. ground (arith, h)), kept)

-- The open lots are exactly the lots of the session that are in the wallet, have something left
-- and are in the pool of the token, whatever their entity: each that `open_lots` gives is one of
-- them, and each of them is given.
pub open_lots-exact :
    (s : Session) (wallet_id token_id : ℕ)
    → All (λ l. Mem l s.lots × IsOpen s wallet_id token_id l) (open_lots s wallet_id token_id)
      × All (λ l. IsOpen s wallet_id token_id l → Mem l (open_lots s wallet_id token_id)) s.lots
unfolding open_lots
open_lots-exact s wallet_id token_id =
    let p = is_open wallet_id (canonical_pool_key s token_id) in
    (
      All-sorted oldest_first (λ l. Mem l s.lots × IsOpen s wallet_id token_id l) (filter p s.lots)
          (All-map (λ l. (p l ≡ true) × Mem l s.lots)
            (λ l. Mem l s.lots × IsOpen s wallet_id token_id l)
            (λ l (fit, there). (there, is_open-IsOpen s wallet_id token_id l fit)) (filter p s.lots)
            (filter-fits p s.lots s.lots (λ _ h. h))),
      All-map (λ l. p l ≡ true → Mem l (filter p s.lots))
          (λ l. IsOpen s wallet_id token_id l → Mem l (sorted oldest_first (filter p s.lots)))
          (λ l k o.
            (Perm.mem_iff (sorted-perm oldest_first (filter p s.lots))).1
              (k (IsOpen-is_open s wallet_id token_id l o)))
          s.lots (filter-keeps p s.lots),
    )
