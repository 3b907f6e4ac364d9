-- ===== src/Grouping/Order.antt =====
-- The groups in the order in which they are read: keys fall strictly, and none is lost.
use mathlib.Core.List.{Permᴰ}
use mathlib.Core.List.Permᴰ
use ai_powered_premier_leagu.Prelude.{
  ◌≡◌, refl, ◌∙◌, Bool, true, false, List, [], ◌∷◌, All, arith, Bool-cases, inl, inr,
}
use ai_powered_premier_leagu.Grouping.{Group, insert_desc, sort_desc}
use ai_powered_premier_leagu.Grouping.Laws.{has_key, KeysDiffer}

-- A relation between each element and every later one.
abbrev pub Pairs : {A : Type 0} → (A → A → Type 0) → List A → Type 0
Pairs R [] = Unit
Pairs R (x ∷ xs) = All (R x) xs × Pairs R xs

module _ {K A : Type 0} (lt : K → K → Bool) where
  All-insert_desc :
      (P : Group K A → Type 0) (g : Group K A) (hs : List (Group K A))
      → P g
      → All P hs
      → All P (insert_desc lt g hs)
  All-insert_desc P g [] p q = (p, tt)
  All-insert_desc P g (h ∷ hs) p q = elim (Bool-cases (lt g.key h.key)) [
    | inl e ↦ rw e (q.0, All-insert_desc P g hs p q.1)
    | inr e ↦ rw e (p, q)
  ]

  pub All-sort_desc :
      (P : Group K A → Type 0) (gs : List (Group K A)) → All P gs → All P (sort_desc lt gs)
  unfolding sort_desc
  All-sort_desc P [] q = tt
  All-sort_desc P (g ∷ gs) q = All-insert_desc P g (sort_desc lt gs) q.0 (All-sort_desc P gs q.1)

  insert_desc-perm : (g : Group K A) (hs : List (Group K A)) → Permᴰ (insert_desc lt g hs) (g ∷ hs)
  insert_desc-perm g [] = Permᴰ.refl (g ∷ [])
  insert_desc-perm g (h ∷ hs) = elim (Bool-cases (lt g.key h.key)) [
    | inl e ↦ rw e (Permᴰ.trans (Permᴰ.cons refl (insert_desc-perm g hs)) (Permᴰ.swap refl refl))
    | inr e ↦ rw e (Permᴰ.refl (g ∷ h ∷ hs))
  ]

  pub sort_desc-perm : (gs : List (Group K A)) → Permᴰ (sort_desc lt gs) gs
  unfolding sort_desc
  sort_desc-perm [] = Permᴰ.nil
  sort_desc-perm (g ∷ gs) =
      Permᴰ.trans (insert_desc-perm g (sort_desc lt gs)) (Permᴰ.cons refl (sort_desc-perm gs))

module _ {K A : Type 0} (lt eq : K → K → Bool)
    (lt_trans : (a b c : K) → lt a b ≡ true → lt b c ≡ true → lt a c ≡ true)
    (lt_total : (a b : K) → lt a b ≡ false → eq a b ≡ false → lt b a ≡ true) where
  abbrev pub Falls : Group K A → Group K A → Type 0
  Falls g h = lt h.key g.key ≡ true

  Falls-later :
      (g h : Group K A) (hs : List (Group K A)) → Falls g h → All (Falls h) hs → All (Falls g) hs
  Falls-later g h [] f q = tt
  Falls-later g h (i ∷ hs) f q = (lt_trans i.key h.key g.key q.0 f, Falls-later g h hs f q.1)

  insert_desc-Pairs :
      (g : Group K A) (hs : List (Group K A))
      → has_key eq g.key hs ≡ false
      → Pairs Falls hs
      → Pairs Falls (insert_desc lt g hs)
  insert_desc-Pairs g [] n p = (tt, tt)
  insert_desc-Pairs g (h ∷ hs) n p = elim (Bool-cases (lt g.key h.key)) [
    | inl e ↦
        rw e (All-insert_desc lt (Falls h) g hs e p.0, insert_desc-Pairs g hs (ground arith) p.1)
    | inr e ↦
        let f : lt h.key g.key ≡ true = lt_total g.key h.key e (ground arith) in
        rw e ((f, Falls-later g h hs f p.0), p)
  ]

  has_key-insert_desc :
      (g h : Group K A) (hs : List (Group K A))
      → has_key eq g.key (insert_desc lt h hs) ≡ has_key eq g.key (h ∷ hs)
  has_key-insert_desc g h [] = refl
  has_key-insert_desc g h (i ∷ hs) = ground (arith, has_key-insert_desc g h hs)

  has_key-sort_desc :
      (g : Group K A) (hs : List (Group K A))
      → has_key eq g.key (sort_desc lt hs) ≡ has_key eq g.key hs
  unfolding sort_desc
  has_key-sort_desc g [] = refl
  has_key-sort_desc g (h ∷ hs) =
      ground (arith, has_key-insert_desc g h (sort_desc lt hs), has_key-sort_desc g hs)

  pub sort_desc-Pairs : (gs : List (Group K A)) → KeysDiffer eq gs → Pairs Falls (sort_desc lt gs)
  unfolding sort_desc
  sort_desc-Pairs [] d = tt
  sort_desc-Pairs (g ∷ gs) d =
      insert_desc-Pairs g (sort_desc lt gs) (has_key-sort_desc g gs ∙ d.0) (sort_desc-Pairs gs d.1)
