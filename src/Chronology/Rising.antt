-- ===== src/Chronology/Rising.antt =====
-- src/pl_platform/features/chronology.py: the keys of the groups in their order.
use ai_powered_premier_leagu.Prelude.{
  ℕ, ◌==◌, ◌≡◌, ltb, leb, refl, ◌∙◌, Bool, true, false, not, ◌&&◌, inl, inr, List, [], ◌∷◌, map,
  all, all-append, all-sort_by, all-insert_by, sort_by, insert_by, Bool-cases, arith, ==→eq,
}
use ai_powered_premier_leagu.Fixtures.{Fixture}
use ai_powered_premier_leagu.Grouping.{Group, items, group_by}
use ai_powered_premier_leagu.Grouping.Laws.{has_key, KeysDiffer, group_by-KeysDiffer}
use ai_powered_premier_leagu.Chronology.{
  FixtureBatch, Calendar, sorted_groups, exact_batch, has_date_only, batches_of_date,
  batches_of_dates, key_of, id_of, kickoff_of,
}
use ai_powered_premier_leagu.Chronology.Cutoffs.{has_its_key, sorted_groups-all, ==-same}

abbrev pub rises : List (Group ℕ Fixture) → Bool
rises [] = true
rises (g ∷ gs) = all (λ h. ltb g.key h.key) gs && rises gs

abbrev differs : ℕ → List (Group ℕ Fixture) → Bool
differs key gs = all (λ h. not (h.key == key)) gs

above_later :
    (a b : ℕ) (gs : List (Group ℕ Fixture))
    → ltb a b ≡ true
    → all (λ h. ltb b h.key) gs ≡ true
    → all (λ h. ltb a h.key) gs ≡ true
above_later a b [] low up = refl
above_later a b (g ∷ gs) low up = ground (arith, above_later a b gs)

insert_by-rises :
    (g : Group ℕ Fixture) (gs : List (Group ℕ Fixture))
    → differs g.key gs ≡ true
    → rises gs ≡ true
    → rises (insert_by key_of g gs) ≡ true
insert_by-rises g [] other up = refl
insert_by-rises g (h ∷ gs) other up = elim (Bool-cases (leb g.key h.key)) [
  | inl low ↦
      let lower : ltb g.key h.key ≡ true = ground arith in
      let after = above_later g.key h.key gs lower (ground arith) in rw (low) (ground arith)
  | inr high ↦
      let here : ltb h.key g.key ≡ true = ground arith in
      let rest = insert_by-rises g gs (ground arith) (ground arith) in
      let above = all-insert_by key_of (λ i. ltb h.key i.key) g gs in rw (high) (ground arith)
]

differs-keys :
    (key : ℕ) (gs : List (Group ℕ Fixture)) → has_key ◌==◌ key gs ≡ false → differs key gs ≡ true
differs-keys key [] absent = refl
differs-keys key (g ∷ gs) absent = ground (arith, differs-keys key gs)

sort_by-rises :
    (gs : List (Group ℕ Fixture)) → KeysDiffer ◌==◌ gs → rises (sort_by key_of gs) ≡ true
sort_by-rises [] apart = refl
sort_by-rises (g ∷ gs) apart =
    insert_by-rises g (sort_by key_of gs)
      (all-sort_by key_of (λ h. not (h.key == g.key)) gs ∙ differs-keys g.key gs (apart.0))
      (sort_by-rises gs (apart.1))

pub sorted_groups-rises :
    (key : Fixture → ℕ) (xs : List Fixture) → rises (sorted_groups key xs) ≡ true
sorted_groups-rises key xs =
    sort_by-rises (group_by ◌==◌ key xs) (group_by-KeysDiffer ◌==◌ key (λ k. ==-same k) ==→eq xs)

module _ (p : Fixture → Bool) where
  abbrev pub all_in : FixtureBatch → Bool
  all_in b = all p b.fixtures

  pub exact-all :
      (gs : List (Group ℕ Fixture))
      → all (λ g. all p (items g)) gs ≡ true
      → all all_in (map exact_batch gs) ≡ true
  exact-all [] whole = refl
  exact-all (g ∷ gs) whole =
      let mine = all-sort_by id_of p (items g) in ground (arith, exact-all gs)

  pub batches_of_date-all :
      (calendar : Calendar) (g : Group ℕ Fixture)
      → all p (items g) ≡ true
      → all all_in (batches_of_date calendar g) ≡ true
  unfolding batches_of_date
  batches_of_date-all calendar g whole = elim (Bool-cases (has_date_only (items g))) [
    | inl some_date_only ↦
        let mine = all-sort_by id_of p (items g) in rw (some_date_only) (ground arith)
    | inr all_exact ↦ rw (all_exact) (
        exact-all (sorted_groups kickoff_of (items g))
          (sorted_groups-all kickoff_of p (items g) whole))
  ]

  pub batches_of_dates-all :
      (calendar : Calendar) (gs : List (Group ℕ Fixture))
      → all (λ g. all p (items g)) gs ≡ true
      → all all_in (batches_of_dates calendar gs) ≡ true
  unfolding batches_of_dates
  batches_of_dates-all calendar [] whole = refl
  batches_of_dates-all calendar (g ∷ gs) whole =
      let mine = batches_of_date-all calendar g (ground arith) in
      all-append all_in (batches_of_date calendar g) (batches_of_dates calendar gs)
      ∙ ground (arith, batches_of_dates-all calendar gs)

all-imply :
    (p q : Fixture → Bool)
    → ((f : Fixture) → p f ≡ true → q f ≡ true)
    → (fs : List Fixture) → all p fs ≡ true
    → all q fs ≡ true
all-imply p q follows [] whole = refl
all-imply p q follows (f ∷ fs) whole =
    let first = follows f (ground arith) in ground (arith, all-imply p q follows fs)

pub groups_above :
    (key : Fixture → ℕ) (a : ℕ) (gs : List (Group ℕ Fixture))
    → all (λ h. ltb a h.key) gs ≡ true
    → all (has_its_key key) gs ≡ true
    → all (λ h. all (λ f. ltb a (key f)) (items h)) gs ≡ true
groups_above key a [] above keyed = refl
groups_above key a (g ∷ gs) above keyed =
    let mine =
      all-imply (λ f. key f == g.key) (λ f. ltb a (key f)) (λ f same. ground arith) (items g)
        (ground arith) in
    ground (arith, groups_above key a gs)
