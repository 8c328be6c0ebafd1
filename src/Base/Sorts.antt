-- ===== src/Base/Sorts.antt =====
-- `sort_by` is stable: an element goes behind those that come strictly before it.
use mathlib.Core.Path.{◌≡◌, refl, sym}
use mathlib.Core.Logic.{◌≢◌, inl, inr}
use mathlib.Core.Bool.{Bool, ◌||◌}
use mathlib.Core.List.{List, [], ◌∷◌, ◌++◌}
use native.Mathlib.Omega.{arith}
use git_slop.Base.Tests.{if◌then◌else◌, Bool-cases}
use git_slop.Base.Lists.{All, Distinct, any}

module _ {ℓ} {A : Type ℓ} (before : A → A → Bool) where
  unfoldable pub insert_by : A → List A → List A
  insert_by x [] = x ∷ []
  insert_by x (y ∷ ys) = if before y x then y ∷ insert_by x ys else x ∷ y ∷ ys

  unfoldable pub sort_by : List A → List A
  sort_by [] = []
  sort_by (x ∷ xs) = insert_by x (sort_by xs)

  any-insert_by : (p : A → Bool) (x : A) (xs : List A) → any p (insert_by x xs) ≡ (p x || any p xs)
  unfolding insert_by
  any-insert_by p x [] = refl
  any-insert_by p x (y ∷ ys) = ground (arith, any-insert_by p x ys)

  -- A sorted list has the elements of the list.
  pub any-sort_by : (p : A → Bool) (xs : List A) → any p (sort_by xs) ≡ any p xs
  unfolding sort_by
  any-sort_by p [] = refl
  any-sort_by p (x ∷ xs) = rw (any-insert_by p x (sort_by xs)) (rw (any-sort_by p xs))

  All-insert_by {κ} :
      (P : A → Type κ) (x : A) (xs : List A) → P x → All P xs → All P (insert_by x xs)
  unfolding insert_by
  All-insert_by P x [] p h = (p, tt)
  All-insert_by P x (y ∷ ys) p (q, h) = elim (Bool-cases (before y x)) [
    | inl behind ↦ rw behind (q, All-insert_by P x ys p h)
    | inr ahead ↦ rw ahead (p, (q, h))
  ]

  pub All-sort_by {κ} : (P : A → Type κ) (xs : List A) → All P xs → All P (sort_by xs)
  unfolding sort_by
  All-sort_by P [] h = tt
  All-sort_by P (x ∷ xs) (p, h) = All-insert_by P x (sort_by xs) p (All-sort_by P xs h)

module _ {ℓ} {A : Type ℓ} where
  pub any-append : (p : A → Bool) (xs ys : List A) → any p (xs ++ ys) ≡ (any p xs || any p ys)
  any-append p [] ys = refl
  any-append p (x ∷ xs) ys = ground (arith, any-append p xs ys)

-- A sorted list has no key twice that the list has once.
module _ {ℓ κ} {A : Type ℓ} {B : Type κ} (before : A → A → Bool) (key : A → B) where
  Distinct-insert_by :
      (x : A) (xs : List A)
      → All (λ y. key x ≢ key y) xs
      → Distinct key xs
      → Distinct key (insert_by before x xs)
  unfolding insert_by
  Distinct-insert_by x [] new d = (tt, tt)
  Distinct-insert_by x (y ∷ ys) (differ, new) (apart, d) = elim (Bool-cases (before y x)) [
    | inl behind ↦ rw behind (
      All-insert_by before (λ z. key y ≢ key z) x ys (λ e. differ (sym e)) apart,
      Distinct-insert_by x ys new d,
    )
    | inr ahead ↦ rw ahead ((differ, new), (apart, d))
  ]

  pub Distinct-sort_by : (xs : List A) → Distinct key xs → Distinct key (sort_by before xs)
  unfolding sort_by
  Distinct-sort_by [] d = tt
  Distinct-sort_by (x ∷ xs) (new, d) =
      Distinct-insert_by x (sort_by before xs) (All-sort_by before (λ y. key x ≢ key y) xs new)
        (Distinct-sort_by xs d)
