-- ===== src/Ranking/Groups.antt =====
-- The rows of one group of equal points, goal difference and goals, placed by head-to-head values.
use mathlib.Core.List.{Permᴰ}
use ai_powered_premier_leagu.Prelude.{
  ℕ, suc, List-cases, ◌==◌, ◌≡◌, refl, sym, ap, true, false, List, [], ◌∷◌, ◌++◌, map, length,
  filter, All, ◌⊎◌, inl, inr, arith, if◌then◌else◌, sort, length-sort_by, subst,
}
use ai_powered_premier_leagu.Grouping.{Group, items}
use ai_powered_premier_leagu.Grouping.Laws.{flatten}
use ai_powered_premier_leagu.Grouping.Order.{Pairs}
use ai_powered_premier_leagu.Table.{PlayedFixture, TeamTableRow, row_ids}
use ai_powered_premier_leagu.Ranking.{
  PrimaryKey, SecondaryKey, primary_lt, primary_eq, secondary_lt, primary_key, head_to_head_values,
  Placed, unresolved, place_first, no_head_to_head,
}
use ai_powered_premier_leagu.Ranking.Keys.{primary_eq→path}
use ai_powered_premier_leagu.Ranking.Lists.{All-mono, All-filter}

-- The rows with the same points, goal difference and goals as a row.
abbrev pub same_primary : List TeamTableRow → PrimaryKey → List TeamTableRow
same_primary rows k = filter (λ q. primary_eq (primary_key q) k) rows

-- The head-to-head values that decide the place of a row: those against the rows that it shares
-- points, goal difference and goals with, and zeros if there is none.
unfoldable pub deciding : List TeamTableRow → List PlayedFixture → TeamTableRow → SecondaryKey
deciding rows ms r =
    let group = same_primary rows (primary_key r) in
    if length group == 1 then no_head_to_head else head_to_head_values (row_ids group) ms r.team_id

-- One row stands above another: by points, goal difference and goals, or by head-to-head values if
-- these agree.
abbrev pub Above : Placed → Placed → Type 0
Above p q =
    (primary_lt (primary_key q.row) (primary_key p.row) ≡ true)
    ⊎ ((primary_key p.row ≡ primary_key q.row)
        × (secondary_lt q.head_to_head p.head_to_head ≡ true))

abbrev pub placed_rows : List Placed → List TeamTableRow
placed_rows ps = map (λ p. p.row) ps

pub longer-ne-nil : {n : ℕ} (xs ys : List ℕ) → length xs ≡ suc n → ¬ (xs ++ ys ≡ [])
longer-ne-nil [] ys h e = absurd (omega arith)
longer-ne-nil (x ∷ xs) ys h e = cc

pub unresolved-none :
    (gs : List (Group SecondaryKey TeamTableRow)) → unresolved gs ≡ [] → All (λ g. g.rest ≡ []) gs
unresolved-none [] e = tt
unresolved-none (g ∷ gs) e = elim (List-cases g.rest) [
  | inl none_left ↦ (none_left, unresolved-none gs (rw none_left at e))
  | inr (r, rs, more) ↦ absurd (
      longer-ne-nil (sort (row_ids (items g))) (unresolved gs)
        (length-sort_by (λ n. n) (row_ids (items g))) (rw more at e))
]

pub firsts :
    (gs : List (Group SecondaryKey TeamTableRow))
    → All (λ g. g.rest ≡ []) gs
    → flatten gs ≡ placed_rows (place_first gs)
firsts [] h = refl
firsts (g ∷ gs) h = rw h.0 (ap (λ l. g.first ∷ l) (firsts gs h.1))

pub place_first-All :
    (P : Placed → Type 0) (gs : List (Group SecondaryKey TeamTableRow))
    → All (λ g. P (record { row = g.first; head_to_head = g.key })) gs
    → All P (place_first gs)
place_first-All P [] h = tt
place_first-All P (g ∷ gs) h = (h.0, place_first-All P gs h.1)

pub place_first-Pairs :
    (gs : List (Group SecondaryKey TeamTableRow))
    → Pairs (λ g h. secondary_lt h.key g.key ≡ true) gs
    → Pairs (λ p q. secondary_lt q.head_to_head p.head_to_head ≡ true) (place_first gs)
place_first-Pairs [] h = tt
place_first-Pairs (g ∷ gs) h = (
  place_first-All (λ q. secondary_lt q.head_to_head g.key ≡ true) gs h.0,
  place_first-Pairs gs h.1,
)

module _ (rows : List TeamTableRow) (ms : List PlayedFixture) (group : List TeamTableRow)
    (k : PrimaryKey) (whole : group ≡ same_primary rows k) where
  -- Every row of the group has its key.
  pub group_keys : All (λ r. primary_key r ≡ k) group
  group_keys = subst (All (λ r. primary_key r ≡ k)) (sym whole) (
      All-mono (λ r. primary_eq (primary_key r) k ≡ true) (λ r. primary_key r ≡ k)
        (same_primary rows k) (λ r. primary_eq→path (primary_key r) k)
        (All-filter (λ r. primary_eq (primary_key r) k) rows))

  pub deciding_tied :
      (r : TeamTableRow)
      → primary_key r ≡ k
      → (length group == 1) ≡ false
      → deciding rows ms r ≡ head_to_head_values (row_ids group) ms r.team_id
  unfolding deciding
  deciding_tied r e many = rw (e, ← whole, many) refl

  pub deciding_alone :
      (r : TeamTableRow)
      → primary_key r ≡ k
      → (length group == 1) ≡ true
      → deciding rows ms r ≡ no_head_to_head
  unfolding deciding
  deciding_alone r e one = rw (e, ← whole, one) refl

  -- What a successful placement of the group is.
  pub record GroupPlaced (ps : List Placed) : Type 0 where
    pub same : Permᴰ (placed_rows ps) group
    pub decided : All (λ p. p.head_to_head ≡ deciding rows ms p.row) ps
    pub in_order : Pairs Above ps
    pub keyed : All (λ p. primary_key p.row ≡ k) ps
