-- ===== src/Ranking/Resolved.antt =====
-- A ranking that succeeds separated every pair of rows.
use mathlib.Core.List.{Permᴰ}
use ai_powered_premier_leagu.Prelude.{
  ℕ, ◌≡◌, ◌≤◌, ◌≢◌, refl, sym, ap, ap₂, ◌∙◌, Bool, true, false, ◌&&◌, List, [], ◌∷◌, length, filter,
  All, ok, Result-cases, inl, inr, arith, Bool-cases,
}
use ai_powered_premier_leagu.Grouping.Order.{Pairs}
use ai_powered_premier_leagu.Table.{
  PlayedFixture, TeamTableRow, LeagueTableState, build_league_table,
}
use ai_powered_premier_leagu.Ranking.{
  PrimaryKey, SecondaryKey, primary_lt, primary_eq, secondary_lt, secondary_eq, primary_key, Placed,
  RankedTableRow, rank_final_table, order_rows,
}
use ai_powered_premier_leagu.Ranking.Keys.{primary_eq→path, secondary_eq→path}
use ai_powered_premier_leagu.Ranking.Groups.{deciding, Above, placed_rows}
use ai_powered_premier_leagu.Ranking.Ties.{HasTie}
use ai_powered_premier_leagu.Ranking.Ordering.{Ordered, order_rows-ok}
use ai_powered_premier_leagu.Ranking.Final.{rank_unplaced}

primary_lt_irrefl : (k : PrimaryKey) → primary_lt k k ≡ false
unfolding primary_lt
primary_lt_irrefl k = ground arith

secondary_lt_irrefl : (k : SecondaryKey) → secondary_lt k k ≡ false
unfolding secondary_lt
secondary_lt_irrefl k = ground arith

-- No row stands above one with the same keys.
Above-differs :
    (p q : Placed)
    → Above p q
    → primary_key p.row ≡ primary_key q.row
    → p.head_to_head ≢ q.head_to_head
Above-differs p q (inl l) e f =
    cc (ap (primary_lt (primary_key q.row)) e, primary_lt_irrefl (primary_key q.row))
Above-differs p q (inr (_, l)) e f =
    cc (ap (secondary_lt q.head_to_head) f, secondary_lt_irrefl q.head_to_head)

module _ (rows : List TeamTableRow) (ms : List PlayedFixture) (k : PrimaryKey)
    (s : SecondaryKey) where
  abbrev has_keys : TeamTableRow → Bool
  has_keys r = primary_eq (primary_key r) k && secondary_eq (deciding rows ms r) s

  abbrev Decided : Placed → Type 0
  Decided p = p.head_to_head ≡ deciding rows ms p.row

  keys_of :
      (p : Placed)
      → Decided p
      → has_keys p.row ≡ true
      → (primary_key p.row ≡ k) × (p.head_to_head ≡ s)
  keys_of p d h = (
    primary_eq→path (primary_key p.row) k (ground arith),
    d ∙ secondary_eq→path (deciding rows ms p.row) s (ground arith),
  )

  none_below :
      (p : Placed) (ps : List Placed)
      → Decided p
      → has_keys p.row ≡ true
      → All Decided ps
      → All (Above p) ps
      → filter has_keys (placed_rows ps) ≡ []
  none_below p [] d h ds below = refl
  none_below p (q ∷ qs) d h ds below = elim (Bool-cases (has_keys q.row)) [
    | inl same ↦
        let (e, f) = keys_of p d h in
        let (e', f') = keys_of q ds.0 same in
        absurd (Above-differs p q below.0 (e ∙ sym e') (f ∙ sym f'))
    | inr other ↦ rw other (none_below p qs d h ds.1 below.1)
  ]

  at_most_one :
      (ps : List Placed)
      → All Decided ps
      → Pairs Above ps
      → length (filter has_keys (placed_rows ps)) ≤ 1
  at_most_one [] ds o = omega arith
  at_most_one (p ∷ ps) ds o = elim (Bool-cases (has_keys p.row)) [
    | inl here ↦ rw (here, none_below p ps ds.0 here ds.1 o.0) (omega arith)
    | inr other ↦ rw other (at_most_one ps ds.1 o.1)
  ]

length-filter-Permᴰ :
    {A : Type 0} (p : A → Bool) {xs ys : List A}
    → Permᴰ xs ys
    → length (filter p xs) ≡ length (filter p ys)
length-filter-Permᴰ t Permᴰ.nil = refl
length-filter-Permᴰ t (Permᴰ.cons {b = b} {l₁ = l} e p) =
    ap (λ u. length (filter t (u ∷ l))) e ∙ ground (arith, length-filter-Permᴰ t p)
length-filter-Permᴰ t (Permᴰ.swap {a' = x} {b' = y} {l = l} e f) =
    ap₂ (λ u v. length (filter t (u ∷ v ∷ l))) e f ∙ ground arith
length-filter-Permᴰ t (Permᴰ.trans p q) = length-filter-Permᴰ t p ∙ length-filter-Permᴰ t q

Ordered-no_tie :
    (t : LeagueTableState) (ps : List Placed) → Ordered t ps → ¬ HasTie t.rows t.matches
Ordered-no_tie t ps o (k, s, two) = omega (
  arith,
  at_most_one t.rows t.matches k s ps o.decided o.in_order,
  length-filter-Permᴰ (has_keys t.rows t.matches k s) o.same,
)

-- If a ranking succeeds, no two rows of the table agree in all of the official keys: a tie is raised
-- whenever there is one.
pub rank_final_table-no_tie :
    (ids : List ℕ) (ms : List PlayedFixture) {t : LeagueTableState} (rs : List RankedTableRow)
    → build_league_table ids ms ≡ ok t
    → rank_final_table t ≡ ok rs
    → ¬ HasTie t.rows t.matches
rank_final_table-no_tie ids ms {t} rs built h = elim (Result-cases (order_rows t)) [
  | inl (ps, e) ↦ Ordered-no_tie t ps (order_rows-ok t ps e)
  | inr (x, e) ↦ cc (rank_unplaced ids ms built x e)
]
