-- ===== src/Prelude/Sort.antt =====
-- `sorted(xs, key=...)`: Python's sort is stable, and so is insertion in front of the first
-- element that is strictly greater.
use mathlib.Core.Path.{◌≡◌, refl}
use mathlib.Core.Bool.{Bool, true, false}
use mathlib.Core.List.{List, [], ◌∷◌}
use mathlib.Core.List.{Perm}
use mathlib.Core.List.Perm
use Prim.Native.Nat.{ℕ, ◌+◌}
use native.Mathlib.Omega.{arith}
use lemon_ledger.Prelude.Tests.{if◌then◌else◌}
use lemon_ledger.Prelude.Lists.{All, sum_of}

module _ {ℓ} {A : Type ℓ} (before : A → A → Bool) where
  -- `before y x` says that `y` has the strictly smaller key.
  unfoldable pub insert : A → List A → List A
  insert x [] = x ∷ []
  insert x (y ∷ ys) = if before y x then y ∷ insert x ys else x ∷ y ∷ ys

  unfoldable pub sorted : List A → List A
  unfolding insert
  sorted [] = []
  sorted (x ∷ xs) = insert x (sorted xs)

  pub insert-perm : (x : A) (xs : List A) → Perm (insert x xs) (x ∷ xs)
  unfolding insert
  insert-perm x [] = Perm.refl (x ∷ [])
  insert-perm x (y ∷ ys) = go (before y x) (insert-perm x ys)
    where
      go :
          (b : Bool)
          → Perm (insert x ys) (x ∷ ys)
          → Perm (if b then y ∷ insert x ys else x ∷ y ∷ ys) (x ∷ y ∷ ys)
      go true p = Perm.trans (Perm.cons y p) (Perm.swap x y ys)
      go false p = Perm.refl (x ∷ y ∷ ys)

  pub sorted-perm : (xs : List A) → Perm (sorted xs) xs
  unfolding sorted
  sorted-perm [] = Perm.refl []
  sorted-perm (x ∷ xs) = Perm.trans (insert-perm x (sorted xs)) (Perm.cons x (sorted-perm xs))

  pub sum_of-insert : (f : A → ℕ) (x : A) (xs : List A) → sum_of f (insert x xs) ≡ f x + sum_of f xs
  unfolding insert
  sum_of-insert f x [] = refl
  sum_of-insert f x (y ∷ ys) = ground (arith, sum_of-insert f x ys)

  pub sum_of-sorted : (f : A → ℕ) (xs : List A) → sum_of f (sorted xs) ≡ sum_of f xs
  unfolding sorted
  sum_of-sorted f [] = refl
  sum_of-sorted f (x ∷ xs) = omega (arith, sum_of-insert f x (sorted xs), sum_of-sorted f xs)

  pub All-insert {κ} : (P : A → Type κ) (x : A) (xs : List A) → P x → All P xs → All P (insert x xs)
  unfolding insert
  All-insert P x [] h hs = (h, hs)
  All-insert P x (y ∷ ys) h hs = go (before y x) (All-insert P x ys h hs.1)
    where
      go : (b : Bool) → All P (insert x ys) → All P (if b then y ∷ insert x ys else x ∷ y ∷ ys)
      go true r = (hs.0, r)
      go false r = (h, hs)

  pub All-sorted {κ} : (P : A → Type κ) (xs : List A) → All P xs → All P (sorted xs)
  unfolding sorted
  All-sorted P [] h = tt
  All-sorted P (x ∷ xs) (h, hs) = All-insert P x (sorted xs) h (All-sorted P xs hs)
