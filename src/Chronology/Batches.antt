-- ===== src/Chronology/Batches.antt =====
-- src/pl_platform/features/chronology.py: the fixtures that the batches hold.
use mathlib.Core.List.{Permᴰ, append_assoc}
use mathlib.Core.List.Permᴰ
use ai_powered_premier_leagu.Prelude.{
  ℕ, ◌==◌, ◌≡◌, refl, sym, ap, ◌∙◌, inl, inr, List, [], ◌∷◌, ◌++◌, map, sort_by, sort_by-perm, ok,
  bind_ok, Bool-cases, subst,
}
use ai_powered_premier_leagu.Fixtures.{Fixture}
use ai_powered_premier_leagu.Grouping.{Group, items, group_by}
use ai_powered_premier_leagu.Grouping.Laws.{flatten, flatten-Permᴰ, group_by-perm}
use ai_powered_premier_leagu.Chronology.{
  FixtureBatch, Calendar, admit, sorted_groups, exact_batch, has_date_only, batches_of_date,
  batches_of_dates, chronological_fixture_batches, key_of, id_of, kickoff_of, date_of_fixture,
}

abbrev pub fixtures_in : List FixtureBatch → List Fixture
fixtures_in [] = []
fixtures_in (b ∷ bs) = b.fixtures ++ fixtures_in bs

fixtures_in-append :
    (xs bs : List FixtureBatch) → fixtures_in (xs ++ bs) ≡ fixtures_in xs ++ fixtures_in bs
fixtures_in-append [] bs = refl
fixtures_in-append (a ∷ rest) bs =
    ap (λ r. a.fixtures ++ r) (fixtures_in-append rest bs)
    ∙ sym (append_assoc a.fixtures (fixtures_in rest) (fixtures_in bs))

append-Permᴰ :
    {ws xs ys zs : List Fixture} → Permᴰ ws xs → Permᴰ ys zs → Permᴰ (ws ++ ys) (xs ++ zs)
append-Permᴰ {ws} {xs} {ys} p q = Permᴰ.trans (Permᴰ.append_right ys p) (Permᴰ.append_left xs q)

sorted_groups-perm :
    (key : Fixture → ℕ) (fixtures : List Fixture)
    → Permᴰ (flatten (sorted_groups key fixtures)) fixtures
sorted_groups-perm key fixtures =
    Permᴰ.trans (flatten-Permᴰ (sort_by-perm key_of (group_by ◌==◌ key fixtures)))
      (group_by-perm ◌==◌ key fixtures)

exact-perm : (gs : List (Group ℕ Fixture)) → Permᴰ (fixtures_in (map exact_batch gs)) (flatten gs)
exact-perm [] = Permᴰ.nil
exact-perm (g ∷ gs) = append-Permᴰ (sort_by-perm id_of (items g)) (exact-perm gs)

batches_of_date-perm :
    (calendar : Calendar) (g : Group ℕ Fixture)
    → Permᴰ (fixtures_in (batches_of_date calendar g)) (items g)
unfolding batches_of_date
batches_of_date-perm calendar g = elim (Bool-cases (has_date_only (items g))) [
  | inl some_date_only ↦
      rw (some_date_only)
        (Permᴰ.trans (Permᴰ.append-nil (sort_by id_of (items g))) (sort_by-perm id_of (items g)))
  | inr all_exact ↦ rw (all_exact) (
      Permᴰ.trans (exact-perm (sorted_groups kickoff_of (items g)))
        (sorted_groups-perm kickoff_of (items g)))
]

batches_of_dates-perm :
    (calendar : Calendar) (gs : List (Group ℕ Fixture))
    → Permᴰ (fixtures_in (batches_of_dates calendar gs)) (flatten gs)
unfolding batches_of_dates
batches_of_dates-perm calendar [] = Permᴰ.nil
batches_of_dates-perm calendar (g ∷ gs) =
    rw (fixtures_in-append (batches_of_date calendar g) (batches_of_dates calendar gs))
      (append-Permᴰ (batches_of_date-perm calendar g) (batches_of_dates-perm calendar gs))

-- Where there are batches, together they hold the given fixtures, each once.
pub chronological_fixture_batches-perm :
    (calendar : Calendar) (fixtures : List Fixture) (batches : List FixtureBatch)
    → chronological_fixture_batches calendar fixtures ≡ ok batches
    → Permᴰ (fixtures_in batches) fixtures
unfolding chronological_fixture_batches
chronological_fixture_batches-perm calendar fixtures batches made =
    let checked = bind_ok (admit calendar [] fixtures) _ made in
    let same : batches_of_dates calendar (sorted_groups (date_of_fixture calendar) fixtures)
        ≡ batches =
      cc in
    subst (λ bs. Permᴰ (fixtures_in bs) fixtures) same
      (Permᴰ.trans
        (batches_of_dates-perm calendar (sorted_groups (date_of_fixture calendar) fixtures))
        (sorted_groups-perm (date_of_fixture calendar) fixtures))
