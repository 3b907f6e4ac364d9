-- ===== src/Prelude/Perms.antt =====
-- Sorting by a key that is different for each element forgets the order of its input.
use Prim.Native.Nat.{ℕ, suc, ◌+◌}
use mathlib.Core.Path.{◌≡◌, refl, ap, sym, ◌∙◌, ap₂}
use mathlib.Core.Logic.{◌≢◌, inl, inr}
use mathlib.Core.Bool.{Bool, true, ◌||◌}
use mathlib.Core.List.{List, [], ◌∷◌, ◌++◌, map, Permᴰ}
use mathlib.Core.List.Permᴰ
use native.Mathlib.Omega.{arith}
use ai_powered_premier_leagu.Prelude.Tests.{leb, Bool-cases}
use ai_powered_premier_leagu.Prelude.Lists.{all, any, sum_of, length}
use ai_powered_premier_leagu.Prelude.Sets.{mem, unique}
use ai_powered_premier_leagu.Prelude.Sorting.{insert_by, sort_by, insert_by_comm}

module _ {ℓ} {A : Type ℓ} (key : A → ℕ) where
  pub mem-Permᴰ : (a : ℕ) {xs ys : List A} → Permᴰ xs ys → mem a (map key xs) ≡ mem a (map key ys)
  mem-Permᴰ a Permᴰ.nil = refl
  mem-Permᴰ a (Permᴰ.cons e p) = rw (e, mem-Permᴰ a p) refl
  mem-Permᴰ a (Permᴰ.swap e f) = rw (e, f) (ground arith)
  mem-Permᴰ a (Permᴰ.trans p q) = mem-Permᴰ a p ∙ mem-Permᴰ a q

  unique_swap : (x y : A) (l : List A) → unique (map key (x ∷ y ∷ l)) ≡ unique (map key (y ∷ x ∷ l))
  unique_swap x y l = ground arith

  pub unique-Permᴰ : {xs ys : List A} → Permᴰ xs ys → unique (map key xs) ≡ unique (map key ys)
  unique-Permᴰ Permᴰ.nil = refl
  unique-Permᴰ (Permᴰ.cons {b = b} e p) = rw (e, mem-Permᴰ (key b) p, unique-Permᴰ p) refl
  unique-Permᴰ (Permᴰ.swap {a' = x} {b' = y} {l = l} e f) =
      ap₂ (λ u v. unique (map key (u ∷ v ∷ l))) e f ∙ unique_swap y x l
  unique-Permᴰ (Permᴰ.trans p q) = unique-Permᴰ p ∙ unique-Permᴰ q

  different : (x y : A) (l : List A) → unique (map key (x ∷ y ∷ l)) ≡ true → key x ≢ key y
  different x y l h e = ground arith

  pub sort_by-Permᴰ :
      {xs ys : List A} → Permᴰ xs ys → unique (map key xs) ≡ true → sort_by key xs ≡ sort_by key ys
  sort_by-Permᴰ Permᴰ.nil h = refl
  sort_by-Permᴰ (Permᴰ.cons {b = b} e p) h =
      rw e (ap (insert_by key b) (sort_by-Permᴰ p (ground arith)))
  sort_by-Permᴰ (Permᴰ.swap {a' = x} {b' = y} {l = l} e f) h =
      rw (e, f)
        (insert_by_comm key y x (sort_by key l)
          (different y x l (ap₂ (λ u v. unique (map key (u ∷ v ∷ l))) (sym e) (sym f) ∙ h)))
  sort_by-Permᴰ (Permᴰ.trans p q) h = sort_by-Permᴰ p h ∙ sort_by-Permᴰ q (sym (unique-Permᴰ p) ∙ h)

  insert_by-Permᴰ : (x : A) (xs : List A) → Permᴰ (insert_by key x xs) (x ∷ xs)
  insert_by-Permᴰ x [] = Permᴰ.refl (x ∷ [])
  insert_by-Permᴰ x (y ∷ ys) = elim (Bool-cases (leb (key x) (key y))) [
    | inl e ↦ rw e (Permᴰ.refl (x ∷ y ∷ ys))
    | inr e ↦ rw e (Permᴰ.trans (Permᴰ.cons refl (insert_by-Permᴰ x ys)) (Permᴰ.swap refl refl))
  ]

  pub sort_by-perm : (xs : List A) → Permᴰ (sort_by key xs) xs
  sort_by-perm [] = Permᴰ.nil
  sort_by-perm (x ∷ xs) =
      Permᴰ.trans (insert_by-Permᴰ x (sort_by key xs)) (Permᴰ.cons refl (sort_by-perm xs))

or_swap : (a b c : Bool) → (a || (b || c)) ≡ (b || (a || c))
or_swap a b c = ground arith

module _ {ℓ} {A : Type ℓ} where
  pub append_right-Permᴰ :
      {xs ys : List A} (zs : List A) → Permᴰ xs ys → Permᴰ (xs ++ zs) (ys ++ zs)
  append_right-Permᴰ zs Permᴰ.nil = Permᴰ.refl zs
  append_right-Permᴰ zs (Permᴰ.cons e p) = Permᴰ.cons e (append_right-Permᴰ zs p)
  append_right-Permᴰ zs (Permᴰ.swap e f) = Permᴰ.swap e f
  append_right-Permᴰ zs (Permᴰ.trans p q) =
      Permᴰ.trans (append_right-Permᴰ zs p) (append_right-Permᴰ zs q)

  pub all-Permᴰ : (p : A → Bool) {xs ys : List A} → Permᴰ xs ys → all p xs ≡ all p ys
  all-Permᴰ t Permᴰ.nil = refl
  all-Permᴰ t (Permᴰ.cons e p) = rw (e, all-Permᴰ t p) refl
  all-Permᴰ t (Permᴰ.swap e f) = rw (e, f) (ground arith)
  all-Permᴰ t (Permᴰ.trans p q) = all-Permᴰ t p ∙ all-Permᴰ t q

  pub length-Permᴰ : {xs ys : List A} → Permᴰ xs ys → length xs ≡ length ys
  length-Permᴰ Permᴰ.nil = refl
  length-Permᴰ (Permᴰ.cons e p) = ap suc (length-Permᴰ p)
  length-Permᴰ (Permᴰ.swap e f) = refl
  length-Permᴰ (Permᴰ.trans p q) = length-Permᴰ p ∙ length-Permᴰ q

  pub any-Permᴰ : (p : A → Bool) {xs ys : List A} → Permᴰ xs ys → any p xs ≡ any p ys
  any-Permᴰ t Permᴰ.nil = refl
  any-Permᴰ t (Permᴰ.cons e p) = rw (e, any-Permᴰ t p) refl
  any-Permᴰ t (Permᴰ.swap {a' = x} {b' = y} {l = l} e f) =
      ap₂ (λ u v. t u || (t v || any t l)) e f ∙ or_swap (t y) (t x) (any t l)
  any-Permᴰ t (Permᴰ.trans p q) = any-Permᴰ t p ∙ any-Permᴰ t q

  pub sum_of-Permᴰ : (f : A → ℕ) {xs ys : List A} → Permᴰ xs ys → sum_of f xs ≡ sum_of f ys
  sum_of-Permᴰ t Permᴰ.nil = refl
  sum_of-Permᴰ t (Permᴰ.cons e p) = ap₂ ◌+◌ (ap t e) (sum_of-Permᴰ t p)
  sum_of-Permᴰ t (Permᴰ.swap {a' = x} {b' = y} {l = l} e f) =
      ap₂ (λ u v. t u + (t v + sum_of t l)) e f ∙ omega arith
  sum_of-Permᴰ t (Permᴰ.trans p q) = sum_of-Permᴰ t p ∙ sum_of-Permᴰ t q
