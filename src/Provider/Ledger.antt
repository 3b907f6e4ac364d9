-- ===== src/Provider/Ledger.antt =====
-- src/pl_platform/ingestion/current_client.py, ProviderQuotaLedger: the last quota that was observed for
-- a source and a capability. Its lock makes each call one step.
use ai_powered_premier_leagu.Prelude.{
  ℕ, ◌+◌, ◌==◌, leb, max, Bool, false, not, ◌&&◌, Option, none, some, List, [], ◌∷◌, Result, ok,
  err, if◌then◌else◌,
}
use ai_powered_premier_leagu.Datetimes.{Datetime, seconds}
use ai_powered_premier_leagu.Provider.{QuotaMetadata, is_exhausted}

pub record QuotaObservation : Type 0 where
  pub metadata : QuotaMetadata
  pub observed_at : Datetime

pub record Bucket : Type 0 where
  pub source_id : ℕ
  pub capability : ℕ
  pub observation : QuotaObservation

abbrev pub is_for : ℕ → ℕ → Bucket → Bool
is_for source capability b = (source == b.source_id) && (capability == b.capability)

abbrev pub observation_of : ℕ → ℕ → List Bucket → Option QuotaObservation
observation_of source capability [] = none
observation_of source capability (b ∷ bs) =
    let rest = observation_of source capability bs in
    if is_for source capability b then some b.observation else rest

-- `del observations[key]`
unfoldable pub forget : ℕ → ℕ → List Bucket → List Bucket
forget source capability [] = []
forget source capability (b ∷ bs) =
    let rest = forget source capability bs in if is_for source capability b then rest else b ∷ rest

-- `record`
unfoldable pub record_quota : ℕ → ℕ → QuotaMetadata → Datetime → List Bucket → List Bucket
record_quota source capability quota observed_at ledger =
    record {
      source_id = source;
      capability = capability;
      observation = record { metadata = quota; observed_at = observed_at };
    }
    ∷ forget source capability ledger

-- The later of the two boundaries that are given.
unfoldable pub latest : Option ℕ → Option ℕ → Option ℕ
latest none none = none
latest none (some b) = some b
latest (some a) none = some a
latest (some a) (some b) = some (max a b)

abbrev pub instant_of : Option Datetime → Option ℕ
instant_of none = none
instant_of (some t) = some t.instant

abbrev pub retry_boundary : QuotaObservation → Option ℕ → Option ℕ
retry_boundary o none = none
retry_boundary o (some delay) = some (o.observed_at.instant + seconds delay)

unfoldable pub boundary_of : QuotaObservation → Option ℕ
boundary_of o =
    latest (instant_of o.metadata.resets_at) (retry_boundary o o.metadata.retry_after_seconds)

-- `boundaries and now >= max(boundaries)`
abbrev pub is_past : Option ℕ → ℕ → Bool
is_past none now = false
is_past (some boundary) now = leb boundary now

abbrev pub checked :
    ℕ → ℕ → ℕ → List Bucket → Option QuotaObservation → Result QuotaMetadata (List Bucket)
checked source capability now ledger none = ok ledger
checked source capability now ledger (some o) =
    if not (is_exhausted o.metadata.status)
    then ok ledger
    else if is_past (boundary_of o) now
    then ok (forget source capability ledger)
    else err o.metadata

-- `require_available` up to the error that it raises, which carries the quota.
unfoldable pub require_available : ℕ → ℕ → ℕ → List Bucket → Result QuotaMetadata (List Bucket)
require_available source capability now ledger =
    checked source capability now ledger (observation_of source capability ledger)
