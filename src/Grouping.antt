-- ===== src/Grouping.antt =====
-- `groups = defaultdict(list)`, filled by `groups[key(x)].append(x)`, and read in the order of
-- `sorted(groups, reverse=True)`. A group is never empty: it is made by its first `append`.
pub mod Laws
pub mod Order
use ai_powered_premier_leagu.Prelude.{Bool, List, [], ◌∷◌, ◌++◌, if◌then◌else◌}

pub record Group (K A : Type 0) : Type 0 where
  pub key : K
  pub first : A
  pub rest : List A

abbrev pub items : {K A : Type 0} → Group K A → List A
items g = g.first ∷ g.rest

module _ {K A : Type 0} (eq : K → K → Bool) (key : A → K) where
  abbrev pub group_add : A → List (Group K A) → List (Group K A)
  group_add x [] = record { key = key x; first = x; rest = [] } ∷ []
  group_add x (g ∷ gs) =
      let later = group_add x gs in
      if eq (key x) g.key then record g { rest = g.rest ++ x ∷ [] } ∷ gs else g ∷ later

  abbrev pub group_onto : List A → List (Group K A) → List (Group K A)
  group_onto [] gs = gs
  group_onto (x ∷ xs) gs = group_onto xs (group_add x gs)

  unfoldable pub group_by : List A → List (Group K A)
  group_by xs = group_onto xs []

module _ {K A : Type 0} (lt : K → K → Bool) where
  abbrev pub insert_desc : Group K A → List (Group K A) → List (Group K A)
  insert_desc g [] = g ∷ []
  insert_desc g (h ∷ hs) =
      let later = insert_desc g hs in if lt g.key h.key then h ∷ later else g ∷ h ∷ hs

  -- The groups with the largest key first.
  unfoldable pub sort_desc : List (Group K A) → List (Group K A)
  sort_desc [] = []
  sort_desc (g ∷ gs) = insert_desc g (sort_desc gs)
