-- ===== src/Ranking/Ties.antt =====
-- A tie is raised only where two rows agree in everything that the official rules compare.
use ai_powered_premier_leagu.Prelude.{
  ℕ, List-cases, ◌==◌, ◌≡◌, ◌≤◌, sym, ap, ◌∙◌, false, ◌&&◌, List, [], ◌∷◌, ◌++◌, length, filter,
  All, ok, err, ◌>>=◌, bind_err, inl, inr, arith, subst,
}
use ai_powered_premier_leagu.Grouping.{Group, items}
use ai_powered_premier_leagu.Grouping.Laws.{Holds, group_by-Holds}
use ai_powered_premier_leagu.Table.{PlayedFixture, TeamTableRow, row_ids}
use ai_powered_premier_leagu.Ranking.{
  PrimaryKey, SecondaryKey, primary_eq, secondary_eq, primary_key, head_to_head_values, RankError,
  unresolved_tie, unresolved, placed_or_tied, place_tied, place_group, place_groups,
}
use ai_powered_premier_leagu.Ranking.Keys.{secondary_eq_refl, secondary_eq→path}
use ai_powered_premier_leagu.Ranking.Lists.{All-mono, filter-filter, filter_cong}
use ai_powered_premier_leagu.Ranking.Groups.{same_primary, deciding, group_keys, deciding_tied}
use ai_powered_premier_leagu.Ranking.Placing.{by_values}

-- The rows with one primary key and one pair of deciding head-to-head values.
abbrev pub inseparable :
    List TeamTableRow → List PlayedFixture → PrimaryKey → SecondaryKey → List TeamTableRow
inseparable rows ms k s =
    filter (λ r. primary_eq (primary_key r) k && secondary_eq (deciding rows ms r) s) rows

abbrev pub HasTie : List TeamTableRow → List PlayedFixture → Type 0
HasTie rows ms = (k : PrimaryKey) × (s : SecondaryKey) × (2 ≤ length (inseparable rows ms k s))

-- The error is a tie, and two rows share all keys.
abbrev pub RaisesTie : List TeamTableRow → List PlayedFixture → RankError → Type 0
RaisesTie rows ms e = (teams : List ℕ) × (e ≡ unresolved_tie teams) × HasTie rows ms

unresolved_group :
    (P : Group SecondaryKey TeamTableRow → Type 0) (gs : List (Group SecondaryKey TeamTableRow))
    (t : ℕ) (ts : List ℕ)
    → unresolved gs ≡ t ∷ ts
    → All P gs
    → (g : Group SecondaryKey TeamTableRow) × P g × (2 ≤ length (items g))
unresolved_group P [] t ts e h = absurd (cc)
unresolved_group P (g ∷ gs) t ts e h = elim (List-cases g.rest) [
  | inl alone ↦ unresolved_group P gs t ts (rw alone at e) h.1
  | inr (r, rs, more) ↦ (g, h.0, rw more (omega arith))
]

module _ (rows : List TeamTableRow) (ms : List PlayedFixture) (group : List TeamTableRow)
    (k : PrimaryKey) (whole : group ≡ same_primary rows k)
    (many : (length group == 1) ≡ false) where
  abbrev values : ℕ → SecondaryKey
  values = head_to_head_values (row_ids group) ms

  -- Within the group the deciding values are the group's own.
  filter-values :
      (s : SecondaryKey)
      → filter (λ r. secondary_eq (values r.team_id) s) group ≡ inseparable rows ms k s
  filter-values s =
      filter_cong (λ r. secondary_eq (values r.team_id) s)
        (λ r. secondary_eq (deciding rows ms r) s) group
        (All-mono (λ r. primary_key r ≡ k)
          (λ r. secondary_eq (values r.team_id) s ≡ secondary_eq (deciding rows ms r) s) group
          (λ r key.
            ap (λ v. secondary_eq v s) (sym (deciding_tied rows ms group k whole r key many)))
          (group_keys rows ms group k whole))
      ∙ ap (filter (λ r. secondary_eq (deciding rows ms r) s)) whole
      ∙ filter-filter (λ r. primary_eq (primary_key r) k) (λ r. secondary_eq (deciding rows ms r) s)
          rows

  tie_found : (t : ℕ) (ts : List ℕ) → unresolved (by_values values group) ≡ t ∷ ts → HasTie rows ms
  tie_found t ts e =
      let (g, holds, two) =
        unresolved_group
          (Holds secondary_eq (λ r. values r.team_id) secondary_eq_refl secondary_eq→path group)
          (by_values values group) t ts e
          (group_by-Holds secondary_eq (λ r. values r.team_id) secondary_eq_refl secondary_eq→path
            group) in
      (k, g.key, subst (λ l. 2 ≤ length l) (holds ∙ filter-values g.key) two)

  place_tied-err : (e : RankError) → place_tied ms group ≡ err e → RaisesTie rows ms e
  unfolding place_tied
  place_tied-err e h = elim (List-cases (unresolved (by_values values group))) [
    | inl none_left ↦ cc (ap (λ u. placed_or_tied u (by_values values group)) none_left)
    | inr (t, ts, some_left) ↦ (
      t ∷ ts,
      ground (arith, ap (λ u. placed_or_tied u (by_values values group)) some_left),
      tie_found t ts some_left,
    )
  ]

module _ (rows : List TeamTableRow) (ms : List PlayedFixture) where
  place_group-err :
      (g : Group PrimaryKey TeamTableRow)
      → items g ≡ same_primary rows g.key
      → (e : RankError) → place_group ms g ≡ err e
      → RaisesTie rows ms e
  unfolding place_group
  place_group-err g whole e h = elim (List-cases g.rest) [
    | inl alone ↦ absurd (ground arith)
    | inr (r, rs, more) ↦
        place_tied-err rows ms (items g) g.key whole
          (ap (λ l. length (g.first ∷ l) == 1) more ∙ ground arith) e (ground arith)
  ]

  pub place_groups-err :
      (gs : List (Group PrimaryKey TeamTableRow))
      → All (λ g. items g ≡ same_primary rows g.key) gs
      → (e : RankError) → place_groups ms gs ≡ err e
      → RaisesTie rows ms e
  unfolding place_groups
  place_groups-err [] w e h = absurd (cc)
  place_groups-err (g ∷ gs) w e h =
      elim (bind_err (place_group ms g)
        (λ placed. place_groups ms gs >>= λ later. ok (placed ++ later)) h) [
          | inl p ↦ place_group-err g w.0 e p
          | inr (ps, p, q) ↦ elim (bind_err (place_groups ms gs) (λ later. ok (ps ++ later)) q) [
            | inl p' ↦ place_groups-err gs w.1 e p'
            | inr (qs, p', bad) ↦ absurd (cc)
          ]
        ]
