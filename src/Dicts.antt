-- ===== src/Dicts.antt =====
-- A Python dict keyed by identifiers, in insertion order, with the updates that the program makes.
use ai_powered_premier_leagu.Prelude.{
  ℕ, ◌==◌, ◌≡◌, refl, Option, none, some, List, [], ◌∷◌, mem, arith, if◌then◌else◌,
}

-- Entries in the order of their first assignment.
abbrev pub Dict {ℓ} : Type ℓ → Type ℓ
Dict Val = List (ℕ × Val)

-- `values.get(key)`
abbrev pub lookup {ℓ} : {Val : Type ℓ} → ℕ → Dict Val → Option Val
lookup key [] = none
lookup key (e ∷ more) = if key == e.0 then some e.1 else lookup key more

-- An update in place of what `values[key]` refers to.
abbrev pub adjust {ℓ} : {Val : Type ℓ} → ℕ → (Val → Val) → Dict Val → Dict Val
adjust key update [] = []
adjust key update (e ∷ more) =
    (e.0, if key == e.0 then update e.1 else e.1) ∷ adjust key update more

-- `{key: value for key in ks}`
abbrev pub fill {ℓ} : {Val : Type ℓ} → Val → List ℕ → Dict Val
fill value [] = []
fill value (key ∷ ks) = (key, value) ∷ fill value ks

abbrev pub map_option {ℓ} : {Val : Type ℓ} → (Val → Val) → Option Val → Option Val
map_option update none = none
map_option update (some value) = some (update value)

module _ {ℓ} {Val : Type ℓ} where
  pub lookup-adjust :
      (j key : ℕ) (update : Val → Val) (values : Dict Val)
      → lookup j (adjust key update values)
        ≡ (if j == key then map_option update (lookup j values) else lookup j values)
  lookup-adjust j key update [] = ground arith
  lookup-adjust j key update (e ∷ more) = ground (arith, lookup-adjust j key update more)

  pub lookup-fill :
      (key : ℕ) (value : Val) (ks : List ℕ)
      → lookup key (fill value ks) ≡ (if mem key ks then some value else none)
  lookup-fill key value [] = refl
  lookup-fill key value (j ∷ ks) = ground (arith, lookup-fill key value ks)
