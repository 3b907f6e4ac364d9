-- ===== src/Ranking/Ordering.antt =====
-- `ordered_rows`: all groups, placed one after the other.
use mathlib.Core.List.{Permᴰ}
use mathlib.Core.List.Permᴰ
use ai_powered_premier_leagu.Prelude.{
  ◌≡◌, sym, ap, ◌∙◌, true, List, [], ◌∷◌, ◌++◌, All, ok, err, ◌>>=◌, bind_ok, inl, arith, subst,
}
use ai_powered_premier_leagu.Grouping.{Group, items, group_by, sort_desc}
use ai_powered_premier_leagu.Grouping.Laws.{
  flatten, flatten-Permᴰ, group_by-Holds, group_by-KeysDiffer, group_by-perm,
}
use ai_powered_premier_leagu.Grouping.Order.{Pairs, sort_desc-Pairs, sort_desc-perm, All-sort_desc}
use ai_powered_premier_leagu.Table.{PlayedFixture, TeamTableRow, LeagueTableState}
use ai_powered_premier_leagu.Ranking.{
  PrimaryKey, primary_lt, primary_eq, primary_key, RankError, Placed, place_group, place_groups,
  order_rows,
}
use ai_powered_premier_leagu.Ranking.Keys.{
  primary_eq_refl, primary_eq→path, primary_lt_trans, primary_lt_total,
}
use ai_powered_premier_leagu.Ranking.Lists.{All-append, All-mono, Pairs-append, map-append}
use ai_powered_premier_leagu.Ranking.Groups.{
  same_primary, deciding, Above, placed_rows, GroupPlaced,
}
use ai_powered_premier_leagu.Ranking.Placing.{place_group-ok}
use ai_powered_premier_leagu.Ranking.Ties.{RaisesTie, place_groups-err}

module _ (rows : List TeamTableRow) (ms : List PlayedFixture) where
  abbrev Whole : List (Group PrimaryKey TeamTableRow) → Type 0
  Whole gs = All (λ g. items g ≡ same_primary rows g.key) gs

  -- A property of the keys of the groups is one of the keys of the placed rows.
  place_groups-keys :
      (Q : PrimaryKey → Type 0) (gs : List (Group PrimaryKey TeamTableRow)) (ps : List Placed)
      → Whole gs
      → All (λ g. Q g.key) gs
      → place_groups ms gs ≡ ok ps
      → All (λ p. Q (primary_key p.row)) ps
  unfolding place_groups
  place_groups-keys Q [] ps w q h =
      let at : [] ≡ ps = ground arith in subst (All (λ p. Q (primary_key p.row))) at tt
  place_groups-keys Q (g ∷ gs) ps w q h =
      let (xs, p, rest) =
        bind_ok (place_group ms g) (λ placed. place_groups ms gs >>= λ later. ok (placed ++ later))
          h in
      let (ys, p', e) = bind_ok (place_groups ms gs) (λ later. ok (xs ++ later)) rest in
      let here = place_group-ok rows ms g w.0 xs p in
      let at : xs ++ ys ≡ ps = ground arith in
      subst (All (λ p. Q (primary_key p.row))) at (
        All-append (λ p. Q (primary_key p.row)) xs ys
          (All-mono (λ p. primary_key p.row ≡ g.key) (λ p. Q (primary_key p.row)) xs
            (λ p key. subst Q (sym key) q.0) here.keyed)
          (place_groups-keys Q gs ys w.1 q.1 p'))

  record AllPlaced (gs : List (Group PrimaryKey TeamTableRow)) (ps : List Placed) : Type 0 where
    same : Permᴰ (placed_rows ps) (flatten gs)
    decided : All (λ p. p.head_to_head ≡ deciding rows ms p.row) ps
    in_order : Pairs Above ps

  -- A placed group in front of placed groups with smaller keys.
  joined :
      (g : Group PrimaryKey TeamTableRow) (gs : List (Group PrimaryKey TeamTableRow))
      (xs ys : List Placed)
      → (whole : items g ≡ same_primary rows g.key) → GroupPlaced rows ms (items g) g.key whole xs
      → AllPlaced gs ys
      → All (λ p. primary_lt (primary_key p.row) g.key ≡ true) ys
      → AllPlaced (g ∷ gs) (xs ++ ys)
  joined g gs xs ys whole here there below = record {
    same =
        subst (λ l. Permᴰ l (items g ++ flatten gs))
          (sym (map-append (λ (p : Placed). p.row) xs ys))
          (Permᴰ.trans (Permᴰ.append_right (placed_rows ys) here.same)
            (Permᴰ.append_left (items g) there.same));
    decided =
        All-append (λ p. p.head_to_head ≡ deciding rows ms p.row) xs ys here.decided there.decided;
    in_order = Pairs-append Above xs ys here.in_order there.in_order (
        All-mono (λ p. primary_key p.row ≡ g.key) (λ p. All (Above p) ys) xs
          (λ p key.
            All-mono (λ q. primary_lt (primary_key q.row) g.key ≡ true) (Above p) ys
              (λ q l. inl (ap (primary_lt (primary_key q.row)) key ∙ l)) below)
          here.keyed);
  }

  place_groups-ok :
      (gs : List (Group PrimaryKey TeamTableRow)) (ps : List Placed)
      → Whole gs
      → Pairs (λ g h. primary_lt h.key g.key ≡ true) gs
      → place_groups ms gs ≡ ok ps
      → AllPlaced gs ps
  unfolding place_groups
  place_groups-ok [] ps w f h =
      let at : [] ≡ ps = ground arith in
      subst (AllPlaced []) at (record { same = Permᴰ.nil; decided = tt; in_order = tt })
  place_groups-ok (g ∷ gs) ps w f h =
      let (xs, p, rest) =
        bind_ok (place_group ms g) (λ placed. place_groups ms gs >>= λ later. ok (placed ++ later))
          h in
      let (ys, p', e) = bind_ok (place_groups ms gs) (λ later. ok (xs ++ later)) rest in
      let at : xs ++ ys ≡ ps = ground arith in
      subst (AllPlaced (g ∷ gs)) at (
        joined g gs xs ys (w.0) (place_group-ok rows ms g w.0 xs p)
          (place_groups-ok gs ys w.1 f.1 p')
          (place_groups-keys (λ k. primary_lt k g.key ≡ true) gs ys w.1 f.0 p'))

  sorted_groups : List (Group PrimaryKey TeamTableRow)
  sorted_groups = sort_desc primary_lt (group_by primary_eq primary_key rows)

  sorted_groups-Whole : Whole sorted_groups
  unfolding sorted_groups
  sorted_groups-Whole =
      All-sort_desc primary_lt (λ g. items g ≡ same_primary rows g.key)
        (group_by primary_eq primary_key rows)
        (group_by-Holds primary_eq primary_key primary_eq_refl primary_eq→path rows)

-- `ordered_rows` holds each row once, in the official order, beside the head-to-head values that
-- decided its place.
pub record Ordered (t : LeagueTableState) (ps : List Placed) : Type 0 where
  pub same : Permᴰ (placed_rows ps) t.rows
  pub decided : All (λ p. p.head_to_head ≡ deciding t.rows t.matches p.row) ps
  pub in_order : Pairs Above ps

pub order_rows-ok : (t : LeagueTableState) (ps : List Placed) → order_rows t ≡ ok ps → Ordered t ps
unfolding order_rows sorted_groups
order_rows-ok t ps h =
    let placed =
      place_groups-ok t.rows t.matches (sorted_groups t.rows t.matches) ps
        (sorted_groups-Whole t.rows t.matches)
        (sort_desc-Pairs primary_lt primary_eq primary_lt_trans primary_lt_total
          (group_by primary_eq primary_key t.rows)
          (group_by-KeysDiffer primary_eq primary_key primary_eq_refl primary_eq→path t.rows))
        h in
    record {
      same = Permᴰ.trans placed.same (
          Permᴰ.trans
            (flatten-Permᴰ (sort_desc-perm primary_lt (group_by primary_eq primary_key t.rows)))
            (group_by-perm primary_eq primary_key t.rows));
      decided = placed.decided;
      in_order = placed.in_order;
    }

pub order_rows-err :
    (t : LeagueTableState) (e : RankError) → order_rows t ≡ err e → RaisesTie t.rows t.matches e
unfolding order_rows sorted_groups
order_rows-err t e h =
    place_groups-err t.rows t.matches (sorted_groups t.rows t.matches)
      (sorted_groups-Whole t.rows t.matches) e h
