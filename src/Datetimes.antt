-- ===== src/Datetimes.antt =====
-- Python's aware and naive datetimes as the contracts read them: a moment in microseconds, and the
-- UTC offset, absent for a naive value. Durations are numbers of microseconds.
use ai_powered_premier_leagu.Prelude.{ℕ, ◌*◌, Bool, not, Option, none, some, ℤ, pos, eqb_ℤ}

pub record Datetime : Type 0 where
  pub instant : ℕ
  pub utc_offset : Option ℤ

-- `value.tzinfo is None or value.utcoffset() != timedelta(0)`
abbrev pub is_not_utc : Datetime → Bool
is_not_utc t = elim t.utc_offset [ none ↦ Bool.true | some z ↦ not (eqb_ℤ z (pos 0)) ]

abbrev pub utc : ℕ → Datetime
utc n = record { instant = n; utc_offset = some (pos 0) }

abbrev pub seconds : ℕ → ℕ
seconds n = n * 1000000

abbrev pub minutes : ℕ → ℕ
minutes n = n * 60000000

abbrev pub hours : ℕ → ℕ
hours n = n * 3600000000

abbrev pub days : ℕ → ℕ
days n = n * 86400000000
