-- ===== src/Prelude/Sorting.antt =====
-- `sorted(xs, key=...)` for a numeric key: a stable insertion sort, and its laws.
use Prim.Native.Nat.{ℕ, suc, ◌+◌, ◌<◌}
use mathlib.Core.Path.{◌≡◌, refl, ap, ◌∙◌}
use mathlib.Core.Logic.{◌≢◌}
use mathlib.Core.Bool.{Bool, true, false, ◌||◌, ◌&&◌, not}
use mathlib.Core.List.{List, [], ◌∷◌, map}
use native.Mathlib.Omega.{arith}
use ai_powered_premier_leagu.Prelude.Tests.{leb, ◌==◌, if◌then◌else◌}
use ai_powered_premier_leagu.Prelude.Lists.{length, sum_of, all, any}
use ai_powered_premier_leagu.Prelude.Sets.{mem, unique, to_set, to_set-unique}

module _ {ℓ} {A : Type ℓ} (key : A → ℕ) where
  abbrev pub insert_by : A → List A → List A
  insert_by x [] = x ∷ []
  insert_by x (y ∷ ys) =
      let rest = insert_by x ys in if leb (key x) (key y) then x ∷ y ∷ ys else y ∷ rest

  abbrev pub sort_by : List A → List A
  sort_by [] = []
  sort_by (x ∷ xs) = insert_by x (sort_by xs)

  -- Keys rise strictly.
  abbrev pub IsRising : List A → Type 0
  IsRising [] = Unit
  IsRising (x ∷ []) = Unit
  IsRising (x ∷ y ∷ ys) = (key x < key y) × IsRising (y ∷ ys)

abbrev pub sort : List ℕ → List ℕ
sort = sort_by (λ n. n)

-- `sorted(set(xs))`
abbrev pub sorted_set : List ℕ → List ℕ
sorted_set xs = sort (to_set xs)

module _ {ℓ} {A : Type ℓ} (key : A → ℕ) where
  map-insert_by :
      (x : A) (xs : List A) → map key (insert_by key x xs) ≡ insert_by (λ n. n) (key x) (map key xs)
  map-insert_by x [] = refl
  map-insert_by x (y ∷ ys) = ground (arith, map-insert_by x ys)

  pub map-sort_by : (xs : List A) → map key (sort_by key xs) ≡ sort (map key xs)
  map-sort_by [] = refl
  map-sort_by (x ∷ xs) =
      map-insert_by x (sort_by key xs) ∙ ap (insert_by (λ n. n) (key x)) (map-sort_by xs)

  -- A list that rises is sorted already.
  pub sort_by-IsRising : (xs : List A) → IsRising key xs → sort_by key xs ≡ xs
  sort_by-IsRising [] h = refl
  sort_by-IsRising (x ∷ []) h = refl
  sort_by-IsRising (x ∷ y ∷ ys) h = rw (sort_by-IsRising (y ∷ ys) h.1) (ground arith)

  -- Two insertions of different keys commute.
  pub insert_by_comm :
      (x y : A) (xs : List A)
      → key x ≢ key y
      → insert_by key x (insert_by key y xs) ≡ insert_by key y (insert_by key x xs)
  insert_by_comm x y [] ne = ground arith
  insert_by_comm x y (z ∷ zs) ne = ground (arith, insert_by_comm x y zs ne)

  pub all-insert_by :
      (p : A → Bool) (x : A) (xs : List A) → all p (insert_by key x xs) ≡ (p x && all p xs)
  all-insert_by p x [] = refl
  all-insert_by p x (y ∷ ys) = ground (arith, all-insert_by p x ys)

  pub all-sort_by : (p : A → Bool) (xs : List A) → all p (sort_by key xs) ≡ all p xs
  all-sort_by p [] = refl
  all-sort_by p (x ∷ xs) = ground (arith, all-sort_by p xs, all-insert_by p x (sort_by key xs))

  any-insert_by :
      (p : A → Bool) (x : A) (xs : List A) → any p (insert_by key x xs) ≡ (p x || any p xs)
  any-insert_by p x [] = refl
  any-insert_by p x (y ∷ ys) = ground (arith, any-insert_by p x ys)

  pub any-sort_by : (p : A → Bool) (xs : List A) → any p (sort_by key xs) ≡ any p xs
  any-sort_by p [] = refl
  any-sort_by p (x ∷ xs) = ground (arith, any-sort_by p xs, any-insert_by p x (sort_by key xs))

  sum_of-insert_by :
      (f : A → ℕ) (x : A) (xs : List A) → sum_of f (insert_by key x xs) ≡ f x + sum_of f xs
  sum_of-insert_by f x [] = refl
  sum_of-insert_by f x (y ∷ ys) = ground (arith, sum_of-insert_by f x ys)

  -- Sorting keeps every total over the list.
  pub sum_of-sort_by : (f : A → ℕ) (xs : List A) → sum_of f (sort_by key xs) ≡ sum_of f xs
  sum_of-sort_by f [] = refl
  sum_of-sort_by f (x ∷ xs) =
      sum_of-insert_by f x (sort_by key xs) ∙ ap (λ n. f x + n) (sum_of-sort_by f xs)

  length-insert_by : (x : A) (xs : List A) → length (insert_by key x xs) ≡ suc (length xs)
  length-insert_by x [] = refl
  length-insert_by x (y ∷ ys) = ground (arith, length-insert_by x ys)

  pub length-sort_by : (xs : List A) → length (sort_by key xs) ≡ length xs
  length-sort_by [] = refl
  length-sort_by (x ∷ xs) = length-insert_by x (sort_by key xs) ∙ ap suc (length-sort_by xs)

mem-insert : (a x : ℕ) (xs : List ℕ) → mem a (insert_by (λ n. n) x xs) ≡ (a == x || mem a xs)
mem-insert a x [] = refl
mem-insert a x (y ∷ ys) = ground (arith, mem-insert a x ys)

pub mem-sort : (a : ℕ) (xs : List ℕ) → mem a (sort xs) ≡ mem a xs
mem-sort a [] = refl
mem-sort a (x ∷ xs) = ground (arith, mem-sort a xs, mem-insert a x (sort xs))

unique-insert :
    (x : ℕ) (xs : List ℕ) → unique (insert_by (λ n. n) x xs) ≡ (not (mem x xs) && unique xs)
unique-insert x [] = refl
unique-insert x (y ∷ ys) = ground (arith, unique-insert x ys, mem-insert y x ys)

pub unique-sort : (xs : List ℕ) → unique (sort xs) ≡ unique xs
unique-sort [] = refl
unique-sort (x ∷ xs) = ground (arith, unique-sort xs, unique-insert x (sort xs), mem-sort x xs)

insert-IsRising :
    (x : ℕ) (xs : List ℕ)
    → IsRising (λ n. n) xs
    → mem x xs ≡ false
    → IsRising (λ n. n) (insert_by (λ n. n) x xs)
insert-IsRising x [] h m = tt
insert-IsRising x (y ∷ []) h m = ground arith
insert-IsRising x (y ∷ z ∷ zs) h m = ground (arith, insert-IsRising x (z ∷ zs) h.1)

pub sort-IsRising : (xs : List ℕ) → unique xs ≡ true → IsRising (λ n. n) (sort xs)
sort-IsRising [] h = tt
sort-IsRising (x ∷ xs) h =
    insert-IsRising x (sort xs) (sort-IsRising xs (ground arith)) (mem-sort x xs ∙ ground arith)

-- The canonical form that the contracts test for, `ids == sorted(set(ids))`, holds of sorted ids.
pub sorted_set-sort : (xs : List ℕ) → unique xs ≡ true → sorted_set (sort xs) ≡ sort xs
sorted_set-sort xs h =
    ap sort (to_set-unique (sort xs) (unique-sort xs ∙ h))
    ∙ sort_by-IsRising (λ n. n) (sort xs) (sort-IsRising xs h)
