-- ===== src/Prelude/Sets.antt =====
-- Sets of identifiers as lists without repetition: `x in s`, `set(xs)`, `len(set(xs)) == len(xs)`.
use Prim.Native.Nat.{ℕ, ◌≤◌}
use mathlib.Core.Path.{◌≡◌, refl}
use mathlib.Core.Bool.{Bool, true, false, ◌||◌, ◌&&◌, not}
use mathlib.Core.List.{List, [], ◌∷◌, ◌++◌}
use native.Mathlib.Omega.{arith}
use ai_powered_premier_leagu.Prelude.Tests.{◌==◌, if◌then◌else◌}
use ai_powered_premier_leagu.Prelude.Lists.{length}

-- `a in xs`
abbrev pub mem : ℕ → List ℕ → Bool
mem a [] = false
mem a (x ∷ xs) = a == x || mem a xs

-- `set(xs)`
abbrev pub to_set : List ℕ → List ℕ
to_set [] = []
to_set (x ∷ xs) = let rest = to_set xs in if mem x rest then rest else x ∷ rest

-- Every element occurs once.
abbrev pub unique : List ℕ → Bool
unique [] = true
unique (x ∷ xs) = not (mem x xs) && unique xs

pub mem-to_set : (a : ℕ) (xs : List ℕ) → mem a (to_set xs) ≡ mem a xs
mem-to_set a [] = refl
mem-to_set a (x ∷ xs) = ground (arith, mem-to_set a xs, mem-to_set x xs)

pub length-to_set-le : (xs : List ℕ) → length (to_set xs) ≤ length xs
length-to_set-le [] = omega arith
length-to_set-le (x ∷ xs) = ground (arith, length-to_set-le xs)

pub to_set-unique : (xs : List ℕ) → unique xs ≡ true → to_set xs ≡ xs
to_set-unique [] h = refl
to_set-unique (x ∷ xs) h = ground (arith, to_set-unique xs, mem-to_set x xs)

-- The test that the code writes, `len(set(xs)) == len(xs)`, is uniqueness.
pub length-to_set : (xs : List ℕ) → (length (to_set xs) == length xs) ≡ unique xs
length-to_set [] = refl
length-to_set (x ∷ xs) = ground (arith, length-to_set xs, mem-to_set x xs, length-to_set-le xs)

pub mem-append : (a : ℕ) (xs ys : List ℕ) → mem a (xs ++ ys) ≡ (mem a xs || mem a ys)
mem-append a [] ys = refl
mem-append a (x ∷ xs) ys = ground (arith, mem-append a xs ys)
