-- ===== src/Pagination/Pages.antt =====
-- src/pl_platform/api/pagination.py: which pages are built, and what a client collects from them.
use ai_powered_premier_leagu.Prelude.{
  ℕ, zero, suc, ◌+◌, ◌-◌, ◌==◌, ◌≡◌, ◌≤◌, ◌<◌, ltb, leb, min, refl, ap, sym, ◌∙◌, true, ◌&&◌,
  Option, none, some, List, [], ◌∷◌, ◌++◌, length, take, drop, length-take, length-drop, Result, ok,
  err, if◌then◌else◌, arith, Bool-cases, inl, inr, ltb→lt, ltb→le,
}
use ai_powered_premier_leagu.Pagination.{
  PaginationParams, PaginatedResponse, PageError, limit_out_of_range, metadata_inconsistent,
  same_offset, next_after, previous_before, check_page, check_response, page_for, build,
}

same_offset_refl : (o : Option ℕ) → same_offset o o ≡ true
same_offset_refl none = refl
same_offset_refl (some a) = ground arith

-- Building a page checks the limit, and then that the items are as many as the total leaves after
-- the offset, up to the limit; nothing else is rejected.
pub build_lem :
    {Item : Type 0} (items : List Item) (params : PaginationParams) (total : ℕ)
    → build items params total ≡ (
        if leb 1 params.limit && leb params.limit 100
        then if length items == min params.limit (total - params.offset)
          then ok (page_for items params total)
          else err metadata_inconsistent
        else err limit_out_of_range)
unfolding build check_page check_response
build_lem items params total =
    rw
      (
        same_offset_refl (next_after params.offset (length items) total),
        same_offset_refl (previous_before params.offset params.limit),
      )
      (ground arith)

abbrev pub joined : {Item : Type 0} → List Item → Option (List Item) → Option (List Item)
joined items none = none
joined items (some more) = some (items ++ more)

abbrev pub follow :
    {Item : Type 0}
    → Result PageError (PaginatedResponse Item)
    → (ℕ → Option (List Item))
    → Option (List Item)
follow (err raised) request = none
follow (ok r) request = elim r.page.next_offset [
  | none ↦ some r.items
  | some next ↦ joined r.items (request next)
]

-- The items that a client collects from `offset` on when it follows `next_offset`, from a server
-- that answers with the slices of `xs`. Each page takes one unit of fuel.
unfoldable pub collect : {Item : Type 0} → ℕ → ℕ → List Item → ℕ → Option (List Item)
collect zero limit xs offset = none
collect (suc fuel) limit xs offset =
    follow
      (build (take limit (drop offset xs)) (record { limit = limit; offset = offset }) (length xs))
      (collect fuel limit xs)

module _ {Item : Type 0} where
  drop-nil : (n : ℕ) → drop {A = Item} n [] ≡ []
  drop-nil zero = refl
  drop-nil (suc n) = refl

  drop-drop : (a b : ℕ) (xs : List Item) → drop (a + b) xs ≡ drop b (drop a xs)
  drop-drop zero b xs = let same : 0 + b ≡ b = omega arith in ap (λ n. drop n xs) same
  drop-drop (suc a) b [] = drop-nil (suc a + b) ∙ sym (drop-nil b)
  drop-drop (suc a) b (x ∷ xs) =
      let same : suc a + b ≡ suc (a + b) = omega arith in
      ap (λ n. drop n (x ∷ xs)) same ∙ drop-drop a b xs

  take-drop : (n : ℕ) (xs : List Item) → take n xs ++ drop n xs ≡ xs
  take-drop zero xs = refl
  take-drop (suc n) [] = refl
  take-drop (suc n) (x ∷ xs) = ap (λ r. x ∷ r) (take-drop n xs)

  take-all : (n : ℕ) (xs : List Item) → length xs ≤ n → take n xs ≡ xs
  take-all zero [] order = refl
  take-all zero (x ∷ xs) order = ground arith
  take-all (suc n) [] order = refl
  take-all (suc n) (x ∷ xs) order = ap (λ r. x ∷ r) (take-all n xs (omega arith))

  slice-accepted :
      (limit offset : ℕ) (xs : List Item)
      → 1 ≤ limit
      → limit ≤ 100
      → build (take limit (drop offset xs)) (record { limit = limit; offset = offset }) (length xs)
        ≡ ok (
            page_for
              (take limit (drop offset xs))
              (record { limit = limit; offset = offset })
              (length xs))
  slice-accepted limit offset xs some_limit most =
      let params : PaginationParams = record { limit = limit; offset = offset } in
      let few = length-take limit (drop offset xs) in
      let rest = length-drop offset xs in
      build_lem (take limit (drop offset xs)) params (length xs) ∙ ground arith

  -- With a valid limit and more fuel than items are left, a client that follows `next_offset` gets
  -- every item from its offset on, each once and in order.
  pub collect_lem :
      (fuel limit : ℕ) (xs : List Item) (offset : ℕ)
      → 1 ≤ limit
      → limit ≤ 100
      → length xs - offset < fuel
      → collect fuel limit xs offset ≡ some (drop offset xs)
  unfolding collect
  collect_lem zero limit xs offset some_limit most enough = ground arith
  collect_lem (suc fuel) limit xs offset some_limit most enough =
      let ys = drop offset xs in
      let few = length-take limit ys in
      let rest = length-drop offset xs in
      let accept =
        ap (λ r. follow r (collect fuel limit xs))
          (slice-accepted limit offset xs some_limit most) in
      elim (Bool-cases (ltb (offset + length (take limit ys)) (length xs))) [
        | inl more ↦
            let ahead = ltb→lt (offset + length (take limit ys)) (length xs) more in
            let full : length (take limit ys) ≡ limit = omega arith in
            let later =
              collect_lem fuel limit xs (offset + length (take limit ys)) some_limit most
                (omega arith) in
            accept
            ∙ rw (more, later, full)
                (ap some
                  (ap (λ r. take limit ys ++ r) (drop-drop offset limit xs) ∙ take-drop limit ys))
        | inr done ↦
            let last = ltb→le (offset + length (take limit ys)) (length xs) done in
            accept ∙ rw (done) (ap some (take-all limit ys (omega arith)))
      ]
