-- ===== src/Registry.antt =====
-- src/pl_platform/registry/registry.py: the events of the model registry and the rules of a
-- transition. A UUID, a digest and a file name are compared only, so each is a number; `Hashing`
-- holds what hashlib, uuid and json compute.
pub mod Store
pub mod Chain
pub mod States
pub mod Changes
pub mod Append
pub mod Outcomes
pub mod Decisions
pub mod Registration
pub mod Registered
pub mod Tests
use ai_powered_premier_leagu.Prelude.{
  ℕ, zero, ◌+◌, ◌==◌, Bool, true, false, ◌||◌, ◌&&◌, not, Option, none, some, List, [], ◌∷◌, length,
  Result, ok, err, ◌>>=◌, ◌>>◌, raise_if, is_none, is_some, if◌then◌else◌,
}

pub data RegistryState : Type 0 where
  candidate : RegistryState
  development_accepted : RegistryState
  active : RegistryState
  retired : RegistryState
  rejected : RegistryState

pub data RegistryAction : Type 0 where
  register : RegistryAction
  accept_development : RegistryAction
  activate : RegistryAction
  retire : RegistryAction
  reject : RegistryAction

-- A rejection reason is a text, as its code points.
pub record RegistryEvidence : Type 0 where
  pub artifact_manifest_sha256 : ℕ
  pub assessment_manifest_sha256 : Option ℕ
  pub rejection_reason : Option (List ℕ)

pub record RegistryEvent : Type 0 where
  pub event_id : ℕ
  pub entry_id : ℕ
  pub sequence : ℕ
  pub previous_event_sha256 : Option ℕ
  pub action : RegistryAction
  pub from_state : Option RegistryState
  pub to_state : RegistryState
  pub evidence : RegistryEvidence

pub record RegistryEntry : Type 0 where
  pub entry_id : ℕ
  pub model_id : ℕ
  pub artifact_id : ℕ
  pub artifact_manifest_id : ℕ
  pub artifact_manifest_relative_path : List ℕ
  pub artifact_manifest_sha256 : ℕ

-- `deterministic_registry_entry_id`, `deterministic_registry_event_id` of the event without its own
-- identifier, `sha256_bytes`, `canonical_json_bytes` and the JSON reader for both records, the
-- test of a relative path that is not empty, and the name of an event's file as its place in the
-- order of names.
pub record Hashing : Type 0 where
  pub entry_uuid : ℕ → ℕ → ℕ
  pub event_uuid :
      ℕ
      → ℕ
      → Option ℕ
      → RegistryAction
      → Option RegistryState
      → RegistryState
      → RegistryEvidence
      → ℕ
  pub sha256 : List ℕ → ℕ
  pub encode : RegistryEvent → List ℕ
  pub decode : List ℕ → Option RegistryEvent
  pub encode_entry : RegistryEntry → List ℕ
  pub decode_entry : List ℕ → Option RegistryEntry
  pub is_relative : List ℕ → Bool
  pub event_file_name : ℕ → ℕ → ℕ

-- A field out of its bounds, and the errors of `action_must_match_states_and_evidence`, in the order
-- of its tests.
pub data EventRefusal : Type 0 where
  field_invalid : EventRefusal
  action_not_allowed : EventRefusal
  registration_not_first : EventRefusal
  previous_not_linked : EventRefusal
  assessment_required : EventRefusal
  assessment_unexpected : EventRefusal
  reason_required : EventRefusal
  reason_unexpected : EventRefusal
  promotion_closed : EventRefusal
  event_id_mismatch : EventRefusal

abbrev pub action_rank : RegistryAction → ℕ
action_rank register = 0
action_rank accept_development = 1
action_rank activate = 2
action_rank retire = 3
action_rank reject = 4

abbrev pub is_action : RegistryAction → RegistryAction → Bool
is_action a b = action_rank a == action_rank b

abbrev pub state_rank : RegistryState → ℕ
state_rank candidate = 0
state_rank development_accepted = 1
state_rank active = 2
state_rank retired = 3
state_rank rejected = 4

abbrev pub same_state : Option RegistryState → Option RegistryState → Bool
same_state none none = true
same_state none (some t) = false
same_state (some s) none = false
same_state (some s) (some t) = state_rank s == state_rank t

abbrev pub same_digest : Option ℕ → Option ℕ → Bool
same_digest none none = true
same_digest none (some b) = false
same_digest (some a) none = false
same_digest (some a) (some b) = a == b

-- The table of transitions.
abbrev pub expected_action : Option RegistryState → RegistryState → Option RegistryAction
expected_action none candidate = some register
expected_action (some candidate) development_accepted = some accept_development
expected_action (some development_accepted) active = some activate
expected_action (some active) retired = some retire
expected_action (some candidate) rejected = some reject
expected_action (some development_accepted) rejected = some reject
expected_action _ _ = none

abbrev pub is_expected : RegistryAction → Option RegistryAction → Bool
is_expected a none = false
is_expected a (some b) = is_action a b

abbrev pub check_link : RegistryEvent → Result EventRefusal (Unit {0})
check_link e =
    if is_action e.action register
    then raise_if (not (e.sequence == 1) || is_some e.previous_event_sha256) registration_not_first
    else raise_if (is_none e.previous_event_sha256) previous_not_linked

abbrev pub check_assessment : RegistryEvent → Result EventRefusal (Unit {0})
check_assessment e =
    if is_action e.action accept_development
    then raise_if (is_none e.evidence.assessment_manifest_sha256) assessment_required
    else raise_if (is_some e.evidence.assessment_manifest_sha256) assessment_unexpected

abbrev pub check_reason : RegistryEvent → Result EventRefusal (Unit {0})
check_reason e =
    if is_action e.action reject
    then raise_if (is_none e.evidence.rejection_reason) reason_required
    else raise_if (is_some e.evidence.rejection_reason) reason_unexpected

abbrev pub expected_event_id : Hashing → RegistryEvent → ℕ
expected_event_id h e =
    h.event_uuid e.entry_id e.sequence e.previous_event_sha256 e.action e.from_state e.to_state
      e.evidence

abbrev pub is_blank : List ℕ → Bool
is_blank [] = true
is_blank (c ∷ cs) = false

abbrev pub is_blank_reason : Option (List ℕ) → Bool
is_blank_reason none = false
is_blank_reason (some reason) = is_blank reason

-- The bounds of the fields: a sequence number is positive, and a given reason is not empty.
abbrev pub is_bad_event : RegistryEvent → Bool
is_bad_event e = e.sequence == 0 || is_blank_reason e.evidence.rejection_reason

-- `action_must_match_states_and_evidence`
unfoldable pub check_transition : Hashing → RegistryEvent → Result EventRefusal (Unit {0})
check_transition h e =
    raise_if (not (is_expected e.action (expected_action e.from_state e.to_state)))
      action_not_allowed
    >> check_link e
    >> check_assessment e
    >> check_reason e
    >> raise_if (is_action e.action activate) promotion_closed
    >> raise_if (not (e.event_id == expected_event_id h e)) event_id_mismatch

-- The validation of an event.
unfoldable pub check_event : Hashing → RegistryEvent → Result EventRefusal (Unit {0})
check_event h e = raise_if (is_bad_event e) field_invalid >> check_transition h e

-- `ArtifactFailureCode`
pub data ArtifactFailureCode : Type 0 where
  manifest_invalid : ArtifactFailureCode
  manifest_non_canonical : ArtifactFailureCode
  identity_mismatch : ArtifactFailureCode
  path_invalid : ArtifactFailureCode
  component_missing : ArtifactFailureCode
  component_size_mismatch : ArtifactFailureCode
  component_checksum_mismatch : ArtifactFailureCode
  component_non_canonical : ArtifactFailureCode
  runtime_incompatible : ArtifactFailureCode
  predictor_schema_incompatible : ArtifactFailureCode
  outcome_order_incompatible : ArtifactFailureCode
  provenance_mismatch : ArtifactFailureCode
  policy_mismatch : ArtifactFailureCode
  registry_transition_invalid : ArtifactFailureCode
  final_test_evidence_required : ArtifactFailureCode

abbrev pub last_event : List RegistryEvent → Option RegistryEvent
last_event [] = none
last_event (e ∷ []) = some e
last_event (e ∷ f ∷ es) = last_event (f ∷ es)

abbrev pub state_after : Option RegistryEvent → Option RegistryState
state_after none = none
state_after (some e) = some e.to_state

abbrev pub digest_after : Hashing → Option RegistryEvent → Option ℕ
digest_after h none = none
digest_after h (some e) = some (h.sha256 (h.encode e))

-- The event that `_event` builds, and `_event`.
abbrev pub next_event :
    Hashing
    → RegistryEntry
    → List RegistryEvent
    → RegistryAction
    → RegistryState
    → RegistryEvidence
    → RegistryEvent
next_event h entry events action to_state evidence =
    let from_state = state_after (last_event events) in
    let previous = digest_after h (last_event events) in
    let sequence = length events + 1 in
    record {
      event_id = h.event_uuid entry.entry_id sequence previous action from_state to_state evidence;
      entry_id = entry.entry_id;
      sequence = sequence;
      previous_event_sha256 = previous;
      action = action;
      from_state = from_state;
      to_state = to_state;
      evidence = evidence;
    }

abbrev pub or_code :
    ArtifactFailureCode
    → RegistryEvent
    → Result EventRefusal (Unit {0})
    → Result ArtifactFailureCode RegistryEvent
or_code code e (ok done) = ok e
or_code code e (err refusal) = err code

unfoldable pub make_event :
    Hashing
    → RegistryEntry
    → List RegistryEvent
    → RegistryAction
    → RegistryState
    → RegistryEvidence
    → Result ArtifactFailureCode RegistryEvent
make_event h entry events action to_state evidence =
    let e = next_event h entry events action to_state evidence in
    or_code
      (if is_action action activate
        then final_test_evidence_required
        else registry_transition_invalid)
      e (check_event h e)
