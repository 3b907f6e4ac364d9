-- ===== src/Grouping/Laws.antt =====
-- A group holds exactly the elements with its key, in their order; no two groups share a key; and
-- together the groups hold what was given.
use mathlib.Core.List.{Permᴰ, append-nil, append_assoc}
use mathlib.Core.List.Permᴰ
use mathlib.Core.Path.{subst₂}
use ai_powered_premier_leagu.Prelude.{
  ◌≡◌, refl, sym, ap, ap₂, subst, ◌∙◌, Bool, true, false, List, [], ◌∷◌, ◌++◌, filter, All, arith,
  if◌then◌else◌, Bool-cases, inl, inr,
}
use ai_powered_premier_leagu.Grouping.{Group, items, group_add, group_onto, group_by}

abbrev pub flatten : {K A : Type 0} → List (Group K A) → List A
flatten [] = []
flatten (g ∷ gs) = items g ++ flatten gs

pub filter-snoc :
    {A : Type 0} (p : A → Bool) (xs : List A) (y : A)
    → filter p (xs ++ y ∷ []) ≡ (if p y then filter p xs ++ y ∷ [] else filter p xs)
filter-snoc p [] y = refl
filter-snoc p (x ∷ xs) y = ground (arith, filter-snoc p xs y)

-- Some group has the key.
abbrev pub has_key : {K A : Type 0} → (K → K → Bool) → K → List (Group K A) → Bool
has_key eq k [] = false
has_key eq k (g ∷ gs) = if eq k g.key then true else has_key eq k gs

abbrev pub KeysDiffer : {K A : Type 0} → (K → K → Bool) → List (Group K A) → Type 0
KeysDiffer eq [] = Unit
KeysDiffer eq (g ∷ gs) = (has_key eq g.key gs ≡ false) × KeysDiffer eq gs

module _ {K A : Type 0} (eq : K → K → Bool) (key : A → K) (eq-refl : (k : K) → eq k k ≡ true)
    (eq→path : (j k : K) → eq j k ≡ true → j ≡ k) where
  abbrev pub Holds : List A → Group K A → Type 0
  Holds xs g = items g ≡ filter (λ x. eq (key x) g.key) xs

  eq_sym : (j k : K) → eq j k ≡ eq k j
  eq_sym j k = elim (Bool-cases (eq j k)) [
    | inl e ↦ let p = eq→path j k e in ap₂ eq p (sym p)
    | inr e ↦ elim (Bool-cases (eq k j)) [
      | inl f ↦ let p = eq→path k j f in sym (ap₂ eq p (sym p))
      | inr f ↦ e ∙ sym f
    ]
  ]

  has_key-group_add :
      (k : K) (x : A) (gs : List (Group K A))
      → has_key eq k (group_add eq key x gs) ≡ (if eq k (key x) then true else has_key eq k gs)
  has_key-group_add k x [] = refl
  has_key-group_add k x (g ∷ gs) = elim (Bool-cases (eq (key x) g.key)) [
    | inl e ↦ rw (e, ap (eq k) (eq→path (key x) g.key e)) (ground arith)
    | inr e ↦ ground (arith, has_key-group_add k x gs)
  ]

  KeysDiffer-group_add :
      (x : A) (gs : List (Group K A)) → KeysDiffer eq gs → KeysDiffer eq (group_add eq key x gs)
  KeysDiffer-group_add x [] h = (refl, tt)
  KeysDiffer-group_add x (g ∷ gs) h = elim (Bool-cases (eq (key x) g.key)) [
    | inl e ↦ rw e h
    | inr e ↦ rw e (
      has_key-group_add g.key x gs ∙ rw (eq_sym g.key (key x), e) h.0,
      KeysDiffer-group_add x gs h.1,
    )
  ]

  Holds-other :
      (xs : List A) (y : A) (gs : List (Group K A))
      → has_key eq (key y) gs ≡ false
      → All (Holds xs) gs
      → All (Holds (xs ++ y ∷ [])) gs
  Holds-other xs y [] n h = tt
  Holds-other xs y (g ∷ gs) n h = (
    ground (arith, filter-snoc (λ x. eq (key x) g.key) xs y),
    Holds-other xs y gs (ground arith) h.1,
  )

  Holds-group_add :
      (xs : List A) (y : A) (gs : List (Group K A))
      → (has_key eq (key y) gs ≡ false → filter (λ x. eq (key x) (key y)) xs ≡ [])
      → KeysDiffer eq gs
      → All (Holds xs) gs
      → All (Holds (xs ++ y ∷ [])) (group_add eq key y gs)
  Holds-group_add xs y [] absent d h = (
    sym (filter-snoc (λ x. eq (key x) (key y)) xs y ∙ rw (eq-refl (key y), absent refl) refl),
    tt,
  )
  Holds-group_add xs y (g ∷ gs) absent d h = elim (Bool-cases (eq (key y) g.key)) [
    | inl e ↦ rw e (
      ap (λ l. l ++ y ∷ []) h.0 ∙ sym (filter-snoc (λ x. eq (key x) g.key) xs y ∙ rw e refl),
      Holds-other xs y gs (ap (λ k. has_key eq k gs) (eq→path (key y) g.key e) ∙ d.0) h.1,
    )
    | inr e ↦ rw e (
      h.0 ∙ sym (filter-snoc (λ x. eq (key x) g.key) xs y ∙ rw e refl),
      Holds-group_add xs y gs (λ n. absent (rw e n)) d.1 h.1,
    )
  ]

  -- What the dictionary knows after the elements `xs`.
  record Inv (xs : List A) (gs : List (Group K A)) : Type 0 where
    holds : All (Holds xs) gs
    differ : KeysDiffer eq gs
    complete : (k : K) → has_key eq k gs ≡ false → filter (λ x. eq (key x) k) xs ≡ []

  complete-snoc :
      (xs : List A) (y : A) (gs : List (Group K A))
      → Inv xs gs
      → (k : K) → has_key eq k (group_add eq key y gs) ≡ false
      → filter (λ x. eq (key x) k) (xs ++ y ∷ []) ≡ []
  complete-snoc xs y gs v k n = ground (
    arith,
    filter-snoc (λ x. eq (key x) k) xs y,
    has_key-group_add k y gs,
    eq_sym k (key y),
    v.complete k,
  )

  Inv-group_add :
      (xs : List A) (y : A) (gs : List (Group K A))
      → Inv xs gs
      → Inv (xs ++ y ∷ []) (group_add eq key y gs)
  Inv-group_add xs y gs v = record {
    holds = Holds-group_add xs y gs (v.complete (key y)) v.differ v.holds;
    differ = KeysDiffer-group_add y gs v.differ;
    complete = λ k n. complete-snoc xs y gs v k n;
  }

  group_onto-Inv :
      (ys xs : List A) (gs : List (Group K A))
      → Inv xs gs
      → Inv (xs ++ ys) (group_onto eq key ys gs)
  group_onto-Inv [] xs gs v = rw (append-nil xs) v
  group_onto-Inv (y ∷ ys) xs gs v =
      rw (← append_assoc xs (y ∷ []) ys)
        (group_onto-Inv ys (xs ++ y ∷ []) (group_add eq key y gs) (Inv-group_add xs y gs v))

  pub group_by-Holds : (xs : List A) → All (Holds xs) (group_by eq key xs)
  unfolding group_by
  group_by-Holds xs =
      (group_onto-Inv xs [] [] (record { holds = tt; differ = tt; complete = λ k n. refl })).holds

  pub group_by-KeysDiffer : (xs : List A) → KeysDiffer eq (group_by eq key xs)
  unfolding group_by
  group_by-KeysDiffer xs =
      (group_onto-Inv xs [] [] (record { holds = tt; differ = tt; complete = λ k n. refl })).differ

module _ {K A : Type 0} (eq : K → K → Bool) (key : A → K) where
  group_add-perm :
      (x : A) (gs : List (Group K A)) → Permᴰ (flatten (group_add eq key x gs)) (x ∷ flatten gs)
  group_add-perm x [] = Permᴰ.refl (x ∷ [])
  group_add-perm x (g ∷ gs) = elim (Bool-cases (eq (key x) g.key)) [
    | inl e ↦
        rw (e, append_assoc g.rest (x ∷ []) (flatten gs)) (Permᴰ.middle x (items g) (flatten gs))
    | inr e ↦ rw e (
        Permᴰ.trans (Permᴰ.append_left (items g) (group_add-perm x gs))
          (Permᴰ.middle x (items g) (flatten gs)))
  ]

  group_onto-perm :
      (xs : List A) (gs : List (Group K A))
      → Permᴰ (flatten (group_onto eq key xs gs)) (xs ++ flatten gs)
  group_onto-perm [] gs = Permᴰ.refl (flatten gs)
  group_onto-perm (x ∷ xs) gs =
      Permᴰ.trans (group_onto-perm xs (group_add eq key x gs))
        (Permᴰ.trans (Permᴰ.append_left xs (group_add-perm x gs)) (Permᴰ.middle x xs (flatten gs)))

  pub group_by-perm : (xs : List A) → Permᴰ (flatten (group_by eq key xs)) xs
  unfolding group_by
  group_by-perm xs = rw append-nil at (group_onto-perm xs [])

pub flatten-Permᴰ :
    {K A : Type 0} {gs hs : List (Group K A)} → Permᴰ gs hs → Permᴰ (flatten gs) (flatten hs)
flatten-Permᴰ Permᴰ.nil = Permᴰ.nil
flatten-Permᴰ (Permᴰ.cons {a = g} {l₁ = gs} {l₂ = hs} e p) =
    subst (λ h. Permᴰ (items g ++ flatten gs) (items h ++ flatten hs)) e
      (Permᴰ.append_left (items g) (flatten-Permᴰ p))
flatten-Permᴰ (Permᴰ.swap {a = g} {b = h} {l = l} e f) =
    subst₂
      (λ g' h'. Permᴰ (items g ++ (items h ++ flatten l)) (items h' ++ (items g' ++ flatten l))) e f
      (rw
        (
          ← append_assoc (items g) (items h) (flatten l),
          ← append_assoc (items h) (items g) (flatten l),
        )
        (Permᴰ.append_right (flatten l) (Permᴰ.append_comm (items g) (items h))))
flatten-Permᴰ (Permᴰ.trans p q) = Permᴰ.trans (flatten-Permᴰ p) (flatten-Permᴰ q)
