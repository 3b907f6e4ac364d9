-- ===== src/Pagination/Tests.antt =====
-- Five items in pages of two.
use ai_powered_premier_leagu.Prelude.{
  ℕ, ◌==◌, ◌-◌, ◌≡◌, leb, min, ◌&&◌, refl, some, List, [], ◌∷◌, length, drop, ok, err, arith,
  if◌then◌else◌,
}
use ai_powered_premier_leagu.Pagination.{
  PaginationParams, build, page_for, check_page, check_response, metadata_inconsistent,
  limit_out_of_range,
}
use ai_powered_premier_leagu.Pagination.Pages.{build_lem, collect, collect_lem}

abbrev five : List ℕ
five = 10 ∷ 11 ∷ 12 ∷ 13 ∷ 14 ∷ []

abbrev second_page : PaginationParams
second_page = record { limit = 2; offset = 2 }

two_of_five :
    build {Item = ℕ} (12 ∷ 13 ∷ []) second_page 5
    ≡ ok (page_for {Item = ℕ} (12 ∷ 13 ∷ []) second_page 5)
unfolding build check_page check_response
two_of_five = refl

partial_page : build {Item = ℕ} (12 ∷ []) second_page 5 ≡ err metadata_inconsistent
unfolding build check_page check_response
partial_page = refl

build_lem_example : build {Item = ℕ} (12 ∷ 13 ∷ []) second_page 5 ≡ (
    if leb 1 second_page.limit && leb second_page.limit 100
    then if length {A = ℕ} (12 ∷ 13 ∷ []) == min second_page.limit (5 - second_page.offset)
      then ok (page_for {Item = ℕ} (12 ∷ 13 ∷ []) second_page 5)
      else err metadata_inconsistent
    else err limit_out_of_range)
build_lem_example = build_lem (12 ∷ 13 ∷ []) second_page 5

collect_lem_example : collect 6 2 five 0 ≡ some (drop 0 five)
collect_lem_example = collect_lem 6 2 five 0 (omega arith) (omega arith) (omega arith)
