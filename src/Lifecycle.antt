-- ===== src/Lifecycle.antt =====
-- src/pl_platform/prediction/lifecycle.py: the results that a prediction may be computed from, with the
-- evidence of src/pl_platform/prediction/domain.py. A UUID and a digest are compared only and are
-- numbers.
pub mod Places
pub mod Boundaries
mod Tests
use ai_powered_premier_leagu.Prelude.{
  ℕ, zero, suc, ◌+◌, ◌==◌, leb, ltb, Bool, true, false, not, ◌&&◌, ◌||◌, Option, none, some,
  is_none, is_some, List, [], ◌∷◌, ◌++◌, map, filter, any, sort_by, Result, ok, err, ◌>>=◌, ◌>>◌,
  raise_if, if◌then◌else◌,
}
use ai_powered_premier_leagu.Datetimes.{Datetime}
use ai_powered_premier_leagu.Fixtures.{Fixture}
use ai_powered_premier_leagu.Chronology.{
  Calendar, FixtureBatch, ChronologyError, chronological_fixture_batches, kickoff_of, id_of,
}

pub data PredictionLifecycleFailureCode : Type 0 where
  invalid_feature_input : PredictionLifecycleFailureCode
  chronology_violation : PredictionLifecycleFailureCode
  predictor_schema_incompatible : PredictionLifecycleFailureCode
  provenance_mismatch : PredictionLifecycleFailureCode
  sealed_target_prohibited : PredictionLifecycleFailureCode
  active_model_required : PredictionLifecycleFailureCode
  prediction_failed : PredictionLifecycleFailureCode
  result_mismatch : PredictionLifecycleFailureCode
  zero_actual_probability : PredictionLifecycleFailureCode
  state_chain_invalid : PredictionLifecycleFailureCode
  result_already_applied : PredictionLifecycleFailureCode
  regeneration_not_required : PredictionLifecycleFailureCode
  scoreline_provenance_required : PredictionLifecycleFailureCode
  simulation_failed : PredictionLifecycleFailureCode

-- A PredictionLifecycleError, a ChronologyError, the StopIteration of `next`, or a KeyError.
pub data LifecycleFailure : Type 0 where
  lifecycle_error : PredictionLifecycleFailureCode → LifecycleFailure
  chronology_error : ChronologyError → LifecycleFailure
  stop_iteration : LifecycleFailure
  key_error : LifecycleFailure

-- What is read of the evidence for an upcoming fixture.
pub record CurrentFixtureEvidence : Type 0 where
  pub fixture : Fixture
  pub knowledge_available_at : Datetime

pub record CompletedResultEvidence : Type 0 where
  pub fixture : Fixture
  pub result_id : ℕ
  pub result_identity_sha256 : ℕ
  pub observation_id : ℕ
  pub cache_key_sha256 : ℕ
  pub retrieved_at : Datetime

abbrev pub fixture_of : CompletedResultEvidence → Fixture
fixture_of r = r.fixture

abbrev pub is_known : CurrentFixtureEvidence → CompletedResultEvidence → Bool
is_known e r = leb r.retrieved_at.instant e.knowledge_available_at.instant

abbrev pub has_fixture : ℕ → FixtureBatch → Bool
has_fixture id b = any (λ f. f.id == id) b.fixtures

-- `next(index for index, batch in enumerate(batches) if ...)`
abbrev pub first_index : ℕ → ℕ → List FixtureBatch → Option ℕ
first_index id index [] = none
first_index id index (b ∷ bs) =
    let rest = first_index id (index + 1) bs in if has_fixture id b then some index else rest

-- `batch_by_fixture[id]`: a later entry of the dictionary replaces an earlier one.
abbrev pub last_index : ℕ → ℕ → List FixtureBatch → Option ℕ
last_index id index [] = none
last_index id index (b ∷ bs) =
    let rest = last_index id (index + 1) bs in
    if is_some rest then rest else if has_fixture id b then some index else none

abbrev pub index_required : Option ℕ → Result LifecycleFailure ℕ
index_required none = err stop_iteration
index_required (some index) = ok index

abbrev pub key_required : Option ℕ → Result LifecycleFailure ℕ
key_required none = err key_error
key_required (some index) = ok index

-- `any(batch_by_fixture[item.fixture.id] >= upcoming_index for item in known)`
unfoldable pub any_late :
    List FixtureBatch → ℕ → List CompletedResultEvidence → Result LifecycleFailure Bool
any_late batches upcoming [] = ok false
any_late batches upcoming (r ∷ known) =
    let rest = any_late batches upcoming known in
    key_required (last_index r.fixture.id 0 batches) >>= λ index.
    if leb upcoming index then ok true else rest

abbrev pub batches_or_error :
    Result ChronologyError (List FixtureBatch) → Result LifecycleFailure (List FixtureBatch)
batches_or_error (err raised) = err (chronology_error raised)
batches_or_error (ok batches) = ok batches

-- `sorted(known, key=lambda item: (item.fixture.kickoff_at, item.fixture.id))`: sorting is stable,
-- so the second key is sorted first.
abbrev pub in_order : List CompletedResultEvidence → List CompletedResultEvidence
in_order known = sort_by (λ r. kickoff_of r.fixture) (sort_by (λ r. r.fixture.id) known)

abbrev pub combined : CurrentFixtureEvidence → List CompletedResultEvidence → List Fixture
combined e known = map fixture_of known ++ e.fixture ∷ []

-- `_relevant_results`
unfoldable pub relevant_results :
    Calendar
    → CurrentFixtureEvidence
    → List CompletedResultEvidence
    → Result LifecycleFailure (List CompletedResultEvidence)
relevant_results calendar e results = do
  batches ←
      batches_or_error
        (chronological_fixture_batches calendar (combined e (filter (is_known e) results)))
  upcoming ← index_required (first_index e.fixture.id 0 batches)
  late ← any_late batches upcoming (filter (is_known e) results)
  _ ← raise_if late (lifecycle_error chronology_violation)
  ok (in_order (filter (is_known e) results))
