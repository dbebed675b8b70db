-- ===== src/Prelude/Rows.antt =====
-- Lemmas on the rows that `find` and `update` read and write.
use mathlib.Core.Path.{◌≡◌, refl, ap, subst}
use mathlib.Core.Logic.{inl, inr}
use mathlib.Core.Bool.{Bool, true, false}
use mathlib.Core.Option.{some}
use mathlib.Core.List.{List, [], ◌∷◌}
use native.Mathlib.Omega.{arith}
use lemon_ledger.Prelude.Tests.{if◌then◌else◌, get_or, is_some, Bool-cases}
use lemon_ledger.Prelude.Lists.{All, find, update}

-- What `find` gives satisfies its test, and is found again after it is replaced.
module _ {ℓ} {A : Type ℓ} (p : A → Bool) where
  pub find-fits : (xs : List A) (x : A) → find p xs ≡ some x → p x ≡ true
  find-fits [] x h = ground arith
  find-fits (y ∷ ys) x h = elim (Bool-cases (p y)) [
    | inl fit ↦ found (ap (λ o. get_or o y) (rw fit at h)) fit
    | inr unfit ↦ find-fits ys x (rw unfit at h)
  ]
    where
      found : y ≡ x → p y ≡ true → p x ≡ true
      found e fit = rw⁻¹ e fit

  pub find-update :
      (new : A) (xs : List A) (x : A)
      → p new ≡ true
      → find p xs ≡ some x
      → find p (update p (λ _. new) xs) ≡ some new
  find-update new [] x fits h = ground arith
  find-update new (y ∷ ys) x fits h = elim (Bool-cases (p y)) [
    | inl fit ↦ rw (fit, fits) refl
    | inr unfit ↦ rw (unfit, unfit) (find-update new ys x fits (rw unfit at h))
  ]

module _ {ℓ} {A : Type ℓ} where
  -- What holds of every row holds of the row that is found.
  pub find-All {κ} :
      (P : A → Type κ) (p : A → Bool) (xs : List A) (x : A) → All P xs → find p xs ≡ some x → P x
  find-All P p [] x h found = ground arith
  find-All P p (y ∷ ys) x (h, hs) found = elim (Bool-cases (p y)) [
    | inl fit ↦ subst P (ap (λ o. get_or o y) (rw fit at found)) h
    | inr unfit ↦ find-All P p ys x hs (rw unfit at found)
  ]

  -- A test that no row passes.
  pub find-nothing :
      (p : A → Bool) (xs : List A) → is_some (find p xs) ≡ false → All (λ x. p x ≡ false) xs
  find-nothing p [] h = tt
  find-nothing p (x ∷ xs) h = elim (Bool-cases (p x)) [
    | inl fit ↦ ground (arith, rw fit at h)
    | inr unfit ↦ (unfit, find-nothing p xs (rw unfit at h))
  ]

-- An assignment that keeps what `q` tests, at the rows that `p` finds.
module _ {ℓ} {A : Type ℓ} (p q : A → Bool) (f : A → A) (keeps : (x : A) → q (f x) ≡ q x) where
  pub find-update-other :
      (apart : (x : A) → p x ≡ true → q x ≡ false) (xs : List A)
      → find q (update p f xs) ≡ find q xs
  find-update-other apart [] = refl
  find-update-other apart (x ∷ xs) = elim (Bool-cases (p x)) [
    | inl fit ↦ rw (fit, keeps x, apart x fit) (find-update-other apart xs)
    | inr unfit ↦ rw unfit (ap (λ r. if q x then some x else r) (find-update-other apart xs))
  ]

module _ {ℓ} {A : Type ℓ} (p : A → Bool) (f : A → A) (keeps : (x : A) → p (f x) ≡ p x) where
  pub find-update-map :
      (xs : List A) (x : A) → find p xs ≡ some x → find p (update p f xs) ≡ some (f x)
  find-update-map [] x h = ground arith
  find-update-map (y ∷ ys) x h = elim (Bool-cases (p y)) [
    | inl fit ↦ rw (fit, keeps y, fit) (ap (λ o. some (f (get_or o y))) (rw fit at h))
    | inr unfit ↦ rw (unfit, unfit) (find-update-map ys x (rw unfit at h))
  ]
