-- ===== src/Pagination.antt =====
-- src/pl_platform/api/pagination.py: offset pagination.
pub mod Pages
mod Tests
use ai_powered_premier_leagu.Prelude.{
  ℕ, suc, ◌+◌, ◌-◌, ◌==◌, ltb, leb, min, max, Bool, true, false, not, ◌&&◌, ◌||◌, Option, none,
  some, List, length, Result, ok, err, ◌>>=◌, ◌>>◌, raise_if, if◌then◌else◌,
}

abbrev pub default_page_limit : ℕ
default_page_limit = 50

abbrev pub maximum_page_limit : ℕ
maximum_page_limit = 100

pub record PaginationParams : Type 0 where
  pub limit : ℕ
  pub offset : ℕ

pub record PageMetadata : Type 0 where
  pub limit : ℕ
  pub offset : ℕ
  pub returned : ℕ
  pub total : ℕ
  pub next_offset : Option ℕ
  pub previous_offset : Option ℕ

pub record PaginatedResponse (Item : Type 0) : Type 0 where
  pub items : List Item
  pub page : PageMetadata

-- The ValidationError of a field, and the messages of the two validators.
pub data PageError : Type 0 where
  limit_out_of_range : PageError
  metadata_inconsistent : PageError
  item_count_mismatch : PageError

abbrev pub same_offset : Option ℕ → Option ℕ → Bool
same_offset none none = true
same_offset none (some b) = false
same_offset (some a) none = false
same_offset (some a) (some b) = a == b

abbrev pub next_after : ℕ → ℕ → ℕ → Option ℕ
next_after offset returned total =
    if ltb (offset + returned) total then some (offset + returned) else none

-- `max(0, offset - limit) if offset else None`
abbrev pub previous_before : ℕ → ℕ → Option ℕ
previous_before offset limit = if offset == 0 then none else some (offset - limit)

-- The fields' bounds and `values_are_consistent`.
unfoldable pub check_page : PageMetadata → Result PageError (Unit {0})
check_page p =
    raise_if (not (leb 1 p.limit && leb p.limit maximum_page_limit)) limit_out_of_range
    >> raise_if
        (not (p.returned == min p.limit (p.total - p.offset))
          || not (same_offset p.next_offset (next_after p.offset p.returned p.total))
          || not (same_offset p.previous_offset (previous_before p.offset p.limit)))
        metadata_inconsistent

-- `item_count_matches_metadata`
unfoldable pub check_response :
    {Item : Type 0} → PaginatedResponse Item → Result PageError (Unit {0})
check_response r = raise_if (not (length r.items == r.page.returned)) item_count_mismatch

abbrev pub page_for : {Item : Type 0} → List Item → PaginationParams → ℕ → PaginatedResponse Item
page_for items params total =
    let returned = length items in
    record {
      items = items;
      page = record {
        limit = params.limit;
        offset = params.offset;
        returned = returned;
        total = total;
        next_offset = next_after params.offset returned total;
        previous_offset = previous_before params.offset params.limit;
      };
    }

-- `PaginatedResponse.build`
unfoldable pub build :
    {Item : Type 0} → List Item → PaginationParams → ℕ → Result PageError (PaginatedResponse Item)
build items params total =
    let r = page_for items params total in check_page r.page >> check_response r >> ok r
