-- ===== src/Prelude/Lists.antt =====
-- Lists as database tables: the first row that fits, the rows that fit, updates of rows, sums.
use Prim.Native.Nat.{ℕ, suc, ◌+◌}
use mathlib.Core.Path.{◌≡◌, refl}
use mathlib.Core.Bool.{Bool, true, false}
use mathlib.Core.Option.{Option, none, some}
use mathlib.Core.List.{List, [], ◌∷◌, ◌++◌, map}
use native.Mathlib.Omega.{arith}
use lemon_ledger.Prelude.Tests.{if◌then◌else◌}

module _ {ℓ} {A : Type ℓ} where
  abbrev pub length : List A → ℕ
  length [] = 0
  length (x ∷ xs) = suc (length xs)

  -- `session.scalar(select(A).where(p))`: the first row that fits.
  abbrev pub find : (A → Bool) → List A → Option A
  find p [] = none
  find p (x ∷ xs) = if p x then some x else find p xs

  -- `[x for x in xs if p(x)]`
  abbrev pub filter : (A → Bool) → List A → List A
  filter p [] = []
  filter p (x ∷ xs) = if p x then x ∷ filter p xs else filter p xs

  -- An assignment to the rows that fit.
  abbrev pub update : (A → Bool) → (A → A) → List A → List A
  update p f [] = []
  update p f (x ∷ xs) = (if p x then f x else x) ∷ update p f xs

  abbrev pub any : (A → Bool) → List A → Bool
  any p [] = false
  any p (x ∷ xs) = if p x then true else any p xs

  abbrev pub sum_of : (A → ℕ) → List A → ℕ
  sum_of f [] = 0
  sum_of f (x ∷ xs) = f x + sum_of f xs

-- A predicate of every element, which computes to tuples.
module _ {ℓ κ} {A : Type ℓ} (Good : A → Type κ) where
  abbrev pub All : List A → Type κ
  All [] = Unit
  All (row ∷ rows) = Good row × All rows

  -- The rows of a table and those that are added to it.
  pub All-append : (more rows : List A) → All more → All rows → All (rows ++ more)
  All-append more [] new old = new
  All-append more (row ∷ rows) new (good, old) = (good, All-append more rows new old)

module _ {ℓ} {A : Type ℓ} where
  pub sum_of-append : (f : A → ℕ) (xs ys : List A) → sum_of f (xs ++ ys) ≡ sum_of f xs + sum_of f ys
  sum_of-append f [] ys = omega arith
  sum_of-append f (x ∷ xs) ys = omega (arith, sum_of-append f xs ys)

  pub All-filter {κ} :
      (P : A → Type κ) (p : A → Bool) (xs : List A) → All P xs → All P (filter p xs)
  All-filter P p [] h = tt
  All-filter P p (x ∷ xs) (h, hs) = go (p x) (All-filter P p xs hs)
    where
      go : (b : Bool) → All P (filter p xs) → All P (if b then x ∷ filter p xs else filter p xs)
      go true r = (h, r)
      go false r = r

  pub All-map {κ μ} :
      (P : A → Type κ) (Q : A → Type μ)
      → ((x : A) → P x → Q x)
      → (xs : List A) → All P xs
      → All Q xs
  All-map P Q f [] h = tt
  All-map P Q f (x ∷ xs) (h, hs) = (f x h, All-map P Q f xs hs)

  pub sum_of-map {κ} :
      {B : Type κ} (f : B → ℕ) (g : A → B) (xs : List A)
      → sum_of f (map g xs) ≡ sum_of (λ x. f (g x)) xs
  sum_of-map f g [] = refl
  sum_of-map f g (x ∷ xs) = omega (arith, sum_of-map f g xs)

  pub All-of_map {κ μ} :
      {B : Type κ} (P : B → Type μ) (g : A → B) (xs : List A)
      → All P (map g xs)
      → All (λ x. P (g x)) xs
  All-of_map P g [] h = tt
  All-of_map P g (x ∷ xs) (h, hs) = (h, All-of_map P g xs hs)

  pub All-to_map {κ μ} :
      {B : Type κ} (P : B → Type μ) (g : A → B) (xs : List A)
      → All (λ x. P (g x)) xs
      → All P (map g xs)
  All-to_map P g [] h = tt
  All-to_map P g (x ∷ xs) (h, hs) = (h, All-to_map P g xs hs)

  pub All-update {κ} :
      (P : A → Type κ) (p : A → Bool) (f : A → A)
      → ((x : A) → P x → P (f x))
      → (xs : List A) → All P xs
      → All P (update p f xs)
  All-update P p f keep [] h = tt
  All-update P p f keep (x ∷ xs) (h, hs) = (go (p x), All-update P p f keep xs hs)
    where
      go : (b : Bool) → P (if b then f x else x)
      go true = keep x h
      go false = h
