-- ===== src/Prelude/Results.antt =====
-- Code that may raise: its value, or the exception. `do` runs the next step only after a value.
use mathlib.Core.Path.{◌≡◌, refl}
use mathlib.Core.Logic.{◌⊎◌, inl, inr}
use mathlib.Core.Bool.{Bool, true, false}
use mathlib.Core.List.{List, [], ◌∷◌}

pub data Result {ℓ} (Exc : Type 0) (Val : Type ℓ) : Type ℓ where
  err : Exc → Result Exc Val
  ok : Val → Result Exc Val

infixl 5 ◌>>=◌ ◌>>◌
abbrev pub ◌>>=◌ {ℓ κ} :
    {Exc : Type 0} {Val : Type ℓ} {Out : Type κ}
    → Result Exc Val
    → (Val → Result Exc Out)
    → Result Exc Out
err raised >>= next = err raised
ok value >>= next = next value

abbrev pub ◌>>◌ {ℓ} :
    {Exc : Type 0} {Out : Type ℓ} → Result Exc (Unit {0}) → Result Exc Out → Result Exc Out
step >> next = step >>= λ done. next

-- `if test: raise exception`
abbrev pub raise_if : {Exc : Type 0} → Bool → Exc → Result Exc (Unit {0})
raise_if false raised = ok tt
raise_if true raised = err raised

-- A tuple comprehension whose body may raise, left to right.
abbrev pub map_result {ℓ κ} :
    {Exc : Type 0} {Val : Type ℓ} {Out : Type κ}
    → (Val → Result Exc Out)
    → List Val
    → Result Exc (List Out)
map_result body [] = ok []
map_result body (x ∷ xs) = do y ← body x; ys ← map_result body xs; ok (y ∷ ys)

module _ {ℓ κ} {Exc : Type 0} {Val : Type ℓ} {Out : Type κ} where
  -- What two steps in a row did, from how they ended.
  pub bind_ok :
      (step : Result Exc Val) (next : Val → Result Exc Out) {out : Out}
      → (step >>= next) ≡ ok out
      → (value : Val) × (step ≡ ok value) × (next value ≡ ok out)
  bind_ok (err raised) next ended = cc
  bind_ok (ok value) next ended = (value, refl, ended)

  pub bind_err :
      (step : Result Exc Val) (next : Val → Result Exc Out) {raised : Exc}
      → (step >>= next) ≡ err raised
      → (step ≡ err raised) ⊎ ((value : Val) × (step ≡ ok value) × (next value ≡ err raised))
  bind_err (err other) next ended = inl (cc)
  bind_err (ok value) next ended = inr (value, refl, ended)

pub Result-cases {ℓ} :
    {Exc : Type 0} {Val : Type ℓ} (r : Result Exc Val)
    → ((value : Val) × (r ≡ ok value)) ⊎ ((raised : Exc) × (r ≡ err raised))
Result-cases (ok value) = inl (value, refl)
Result-cases (err raised) = inr (raised, refl)
