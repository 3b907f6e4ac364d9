-- ===== src/Registry/Tests/Codec.antt =====
-- A concrete codec for the events and the entries of the registry.
use ai_powered_premier_leagu.Prelude.{
  ℕ, zero, suc, ◌+◌, ◌≡◌, refl, true, Option, none, some, List, [], ◌∷◌, length,
}
use ai_powered_premier_leagu.Registry.{
  RegistryState, RegistryAction, RegistryEntry, RegistryEvent, Hashing, candidate,
  development_accepted, active, retired, rejected, register, accept_development, activate, retire,
  reject,
}
use ai_powered_premier_leagu.Registry.Outcomes.{IsFaithful}
use ai_powered_premier_leagu.Registry.Registered.{IsEntryFaithful}

-- Lists of numbers for an event and back.
abbrev action_code : RegistryAction → ℕ
action_code register = 0
action_code accept_development = 1
action_code activate = 2
action_code retire = 3
action_code reject = 4

abbrev action_of : ℕ → RegistryAction
action_of zero = register
action_of (suc zero) = accept_development
action_of (suc (suc zero)) = activate
action_of (suc (suc (suc zero))) = retire
action_of _ = reject

action_of-code : (a : RegistryAction) → action_of (action_code a) ≡ a
action_of-code register = refl
action_of-code accept_development = refl
action_of-code activate = refl
action_of-code retire = refl
action_of-code reject = refl

abbrev state_code : Option RegistryState → ℕ
state_code none = 0
state_code (some candidate) = 1
state_code (some development_accepted) = 2
state_code (some active) = 3
state_code (some retired) = 4
state_code (some rejected) = 5

abbrev state_of : ℕ → RegistryState
state_of zero = candidate
state_of (suc zero) = development_accepted
state_of (suc (suc zero)) = active
state_of (suc (suc (suc zero))) = retired
state_of _ = rejected

abbrev from_state_of : ℕ → Option RegistryState
from_state_of zero = none
from_state_of (suc n) = some (state_of n)

from_state_of-code : (s : Option RegistryState) → from_state_of (state_code s) ≡ s
from_state_of-code none = refl
from_state_of-code (some candidate) = refl
from_state_of-code (some development_accepted) = refl
from_state_of-code (some active) = refl
from_state_of-code (some retired) = refl
from_state_of-code (some rejected) = refl

abbrev to_state_of : ℕ → RegistryState
to_state_of zero = candidate
to_state_of (suc n) = state_of n

to_state_of-code : (s : RegistryState) → to_state_of (state_code (some s)) ≡ s
to_state_of-code candidate = refl
to_state_of-code development_accepted = refl
to_state_of-code active = refl
to_state_of-code retired = refl
to_state_of-code rejected = refl

abbrev digest_code : Option ℕ → ℕ
digest_code none = 0
digest_code (some d) = suc d

abbrev digest_of : ℕ → Option ℕ
digest_of zero = none
digest_of (suc d) = some d

digest_of-code : (d : Option ℕ) → digest_of (digest_code d) ≡ d
digest_of-code none = refl
digest_of-code (some d) = refl

abbrev reason_code : Option (List ℕ) → List ℕ
reason_code none = []
reason_code (some reason) = 0 ∷ reason

abbrev reason_of : List ℕ → Option (List ℕ)
reason_of [] = none
reason_of (flag ∷ reason) = some reason

reason_of-code : (r : Option (List ℕ)) → reason_of (reason_code r) ≡ r
reason_of-code none = refl
reason_of-code (some r) = refl

abbrev write_event : RegistryEvent → List ℕ
write_event e =
    e.event_id
    ∷ e.entry_id
    ∷ e.sequence
    ∷ digest_code e.previous_event_sha256
    ∷ action_code e.action
    ∷ state_code e.from_state
    ∷ state_code (some e.to_state)
    ∷ e.evidence.artifact_manifest_sha256
    ∷ digest_code e.evidence.assessment_manifest_sha256
    ∷ reason_code e.evidence.rejection_reason

abbrev read_event : List ℕ → Option RegistryEvent
read_event
      (id ∷ entry ∷ place ∷ previous ∷ act ∷ source ∷ target ∷ manifest ∷ assessment ∷ reason) =
    some (record {
      event_id = id;
      entry_id = entry;
      sequence = place;
      previous_event_sha256 = digest_of previous;
      action = action_of act;
      from_state = from_state_of source;
      to_state = to_state_of target;
      evidence = record {
        artifact_manifest_sha256 = manifest;
        assessment_manifest_sha256 = digest_of assessment;
        rejection_reason = reason_of reason;
      };
    })
read_event _ = none

abbrev write_entry : RegistryEntry → List ℕ
write_entry entry =
    entry.entry_id ∷ entry.model_id ∷ entry.artifact_id ∷ entry.artifact_manifest_id
    ∷ entry.artifact_manifest_sha256 ∷ entry.artifact_manifest_relative_path

abbrev read_entry : List ℕ → Option RegistryEntry
read_entry (id ∷ model ∷ art ∷ manifest ∷ digest ∷ path) = some (record {
  entry_id = id;
  model_id = model;
  artifact_id = art;
  artifact_manifest_id = manifest;
  artifact_manifest_relative_path = path;
  artifact_manifest_sha256 = digest;
})
read_entry _ = none

abbrev pub codec : Hashing
codec = record {
  entry_uuid = λ artifact manifest. artifact + manifest;
  event_uuid = λ entry place previous act source target evidence. entry + place;
  sha256 = λ bytes. length bytes;
  encode = write_event;
  decode = read_event;
  encode_entry = write_entry;
  decode_entry = read_entry;
  is_relative = λ path. true;
  event_file_name = λ place id. place;
}

pub codec-IsFaithful : IsFaithful codec
codec-IsFaithful = record {
  decode-encode = λ e good.
      rw
        (
          digest_of-code e.previous_event_sha256,
          action_of-code e.action,
          from_state_of-code e.from_state,
          to_state_of-code e.to_state,
          digest_of-code e.evidence.assessment_manifest_sha256,
          reason_of-code e.evidence.rejection_reason,
        )
        refl;
  ordered = record { in_order = λ a i b j before short. before };
}

pub codec-IsEntryFaithful : IsEntryFaithful codec
codec-IsEntryFaithful = record { decode-encode_entry = λ entry. refl }
