-- ===== src/Ranking/Placing.antt =====
-- A group is placed whole and in the official order, or raises the tie that it could not resolve.
use mathlib.Core.List.{Permᴰ}
use mathlib.Core.List.Permᴰ
use ai_powered_premier_leagu.Prelude.{
  ℕ, List-cases, ◌==◌, ◌≡◌, sym, ap, ◌∙◌, Bool, true, false, List, [], ◌∷◌, length, filter, All, ok,
  inl, inr, arith, subst,
}
use ai_powered_premier_leagu.Grouping.{Group, items, group_by, sort_desc}
use ai_powered_premier_leagu.Grouping.Laws.{
  flatten-Permᴰ, Holds, group_by-Holds, group_by-KeysDiffer, group_by-perm,
}
use ai_powered_premier_leagu.Grouping.Order.{Pairs, sort_desc-Pairs, sort_desc-perm, All-sort_desc}
use ai_powered_premier_leagu.Table.{PlayedFixture, TeamTableRow, row_ids}
use ai_powered_premier_leagu.Ranking.{
  PrimaryKey, SecondaryKey, secondary_lt, secondary_eq, primary_key, head_to_head_values, Placed,
  unresolved, place_first, placed_or_tied, place_tied, no_head_to_head, place_group,
}
use ai_powered_premier_leagu.Ranking.Keys.{
  secondary_eq_refl, secondary_eq→path, secondary_lt_trans, secondary_lt_total,
}
use ai_powered_premier_leagu.Ranking.Lists.{
  All-mono, All-both, All-filter, All-Permᴰ, Pairs-mono, All-map,
}
use ai_powered_premier_leagu.Ranking.Groups.{
  same_primary, deciding, Above, placed_rows, unresolved-none, firsts, place_first-All,
  place_first-Pairs, group_keys, deciding_tied, deciding_alone, GroupPlaced,
}

-- The first row of a group satisfies the test by which the group is a filter.
first-filter :
    {K : Type 0} (t : TeamTableRow → Bool) (group : List TeamTableRow) (g : Group K TeamTableRow)
    → items g ≡ filter t group
    → t g.first ≡ true
first-filter t group g e = (subst (All (λ r. t r ≡ true)) (sym e) (All-filter t group)).0

module _ (values : ℕ → SecondaryKey) (group : List TeamTableRow) where
  abbrev pub by_values : List (Group SecondaryKey TeamTableRow)
  by_values = group_by secondary_eq (λ r. values r.team_id) group

  abbrev placed_by : List Placed
  placed_by = place_first (sort_desc secondary_lt by_values)

  single_sorted :
      unresolved by_values ≡ [] → All (λ g. g.rest ≡ []) (sort_desc secondary_lt by_values)
  single_sorted e =
      All-sort_desc secondary_lt (λ g. g.rest ≡ []) by_values (unresolved-none by_values e)

  placed_by-perm : unresolved by_values ≡ [] → Permᴰ (placed_rows placed_by) group
  placed_by-perm e = rw (← firsts (sort_desc secondary_lt by_values) (single_sorted e)) (
      Permᴰ.trans (flatten-Permᴰ (sort_desc-perm secondary_lt by_values))
        (group_by-perm secondary_eq (λ r. values r.team_id) group))

  placed_by-values : All (λ p. values p.row.team_id ≡ p.head_to_head) placed_by
  placed_by-values =
      place_first-All (λ p. values p.row.team_id ≡ p.head_to_head)
        (sort_desc secondary_lt by_values)
        (All-sort_desc secondary_lt (λ g. values g.first.team_id ≡ g.key) by_values
          (All-mono
            (Holds secondary_eq (λ r. values r.team_id) secondary_eq_refl secondary_eq→path group)
            (λ g. values g.first.team_id ≡ g.key) by_values
            (λ g h.
              secondary_eq→path _ _
                (first-filter (λ r. secondary_eq (values r.team_id) g.key) group g h))
            (group_by-Holds secondary_eq (λ r. values r.team_id) secondary_eq_refl secondary_eq→path
              group)))

  placed_by-Pairs : Pairs (λ p q. secondary_lt q.head_to_head p.head_to_head ≡ true) placed_by
  placed_by-Pairs = place_first-Pairs (sort_desc secondary_lt by_values) (
      sort_desc-Pairs secondary_lt secondary_eq secondary_lt_trans secondary_lt_total by_values (
        group_by-KeysDiffer secondary_eq (λ r. values r.team_id) secondary_eq_refl secondary_eq→path
          group))

module _ (rows : List TeamTableRow) (ms : List PlayedFixture) (group : List TeamTableRow)
    (k : PrimaryKey) (whole : group ≡ same_primary rows k) where
  tied_placed :
      (length group == 1) ≡ false
      → unresolved (by_values (head_to_head_values (row_ids group) ms) group) ≡ []
      → GroupPlaced rows ms group k whole (placed_by (head_to_head_values (row_ids group) ms) group)
  tied_placed many e =
      let values = head_to_head_values (row_ids group) ms in
      let ps = placed_by values group in
      let same = placed_by-perm values group e in
      let keyed =
        All-map (λ r. primary_key r ≡ k) (λ (p : Placed). p.row) ps
          (All-Permᴰ (λ r. primary_key r ≡ k) (Permᴰ.symm same)
            (group_keys rows ms group k whole)) in
      record {
        same = same;
        decided =
            All-mono (λ p. (primary_key p.row ≡ k) × (values p.row.team_id ≡ p.head_to_head))
              (λ p. p.head_to_head ≡ deciding rows ms p.row) ps
              (λ p (key, v). sym (deciding_tied rows ms group k whole p.row key many ∙ v))
              (All-both (λ p. primary_key p.row ≡ k) (λ p. values p.row.team_id ≡ p.head_to_head) ps
                keyed (placed_by-values values group));
        in_order =
            Pairs-mono (λ p q. secondary_lt q.head_to_head p.head_to_head ≡ true) Above
              (λ p. primary_key p.row ≡ k) ps (λ p q kp kq l. inr (kp ∙ sym kq, l)) keyed
              (placed_by-Pairs values group);
        keyed = keyed;
      }

  place_tied-ok :
      (ps : List Placed)
      → (length group == 1) ≡ false
      → place_tied ms group ≡ ok ps
      → GroupPlaced rows ms group k whole ps
  unfolding place_tied
  place_tied-ok ps many h =
      let values = head_to_head_values (row_ids group) ms in
      elim (List-cases (unresolved (by_values values group))) [
        | inr (t, ts, e) ↦
            absurd (ground (arith, ap (λ u. placed_or_tied u (by_values values group)) e))
        | inl e ↦
            let at : placed_by values group ≡ ps =
              ground (arith, ap (λ u. placed_or_tied u (by_values values group)) e) in
            subst (GroupPlaced rows ms group k whole) at (tied_placed many e)
      ]

  alone_placed :
      (r : TeamTableRow)
      → group ≡ r ∷ []
      → GroupPlaced rows ms group k whole (record { row = r; head_to_head = no_head_to_head } ∷ [])
  alone_placed r e =
      let key : primary_key r ≡ k =
        (subst (All (λ q. primary_key q ≡ k)) e (group_keys rows ms group k whole)).0 in
      record {
        same = subst (Permᴰ (r ∷ [])) (sym e) (Permᴰ.refl (r ∷ []));
        decided =
            (sym (deciding_alone rows ms group k whole r key (ap (λ l. length l == 1) e)), tt);
        in_order = (tt, tt);
        keyed = (key, tt);
      }

pub place_group-ok :
    (rows : List TeamTableRow) (ms : List PlayedFixture) (g : Group PrimaryKey TeamTableRow)
    → (whole : items g ≡ same_primary rows g.key) → (ps : List Placed) → place_group ms g ≡ ok ps
    → GroupPlaced rows ms (items g) g.key whole ps
unfolding place_group
place_group-ok rows ms g whole ps h = elim (List-cases g.rest) [
  | inl e ↦
      let at : record { row = g.first; head_to_head = no_head_to_head } ∷ [] ≡ ps = ground arith in
      subst (GroupPlaced rows ms (items g) g.key whole) at
        (alone_placed rows ms (items g) g.key whole g.first (ap (λ l. g.first ∷ l) e))
  | inr (r, rs, e) ↦
      place_tied-ok rows ms (items g) g.key whole ps
        (ap (λ l. length (g.first ∷ l) == 1) e ∙ ground arith) (ground arith)
]
