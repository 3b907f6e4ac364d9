-- ===== src/Registry/Store.antt =====
-- The directory of one registry entry, and `load_registry_entry`, which reads it back.
use ai_powered_premier_leagu.Prelude.{
  ℕ, ◌+◌, ◌==◌, Bool, true, false, ◌||◌, ◌&&◌, not, Option, none, some, List, [], ◌∷◌, Result, ok,
  err, ◌>>=◌, raise_if, any, sort_by, if◌then◌else◌,
}
use ai_powered_premier_leagu.Registry.{
  RegistryState, RegistryEntry, RegistryEvent, Hashing, ArtifactFailureCode, manifest_invalid,
  manifest_non_canonical, registry_transition_invalid, same_state, same_digest, check_event,
  EventRefusal,
}

-- A path below `events`: its name, whether it is a file with the suffix `.json`, and its bytes.
pub record File : Type 0 where
  pub name : ℕ
  pub is_json : Bool
  pub payload : List ℕ

pub data EventDirectory : Type 0 where
  missing : EventDirectory
  not_a_directory : EventDirectory
  directory : List File → EventDirectory

-- `entry.json`, the number of other children beside `events`, and `events`.
pub record EntryDirectory : Type 0 where
  pub entry_json : Option (List ℕ)
  pub unexpected_children : ℕ
  pub events : EventDirectory

pub record LoadedRegistryEntry : Type 0 where
  pub entry : RegistryEntry
  pub events : List RegistryEvent
  pub state : RegistryState

abbrev pub same_bytes : List ℕ → List ℕ → Bool
same_bytes [] [] = true
same_bytes [] (b ∷ bs) = false
same_bytes (a ∷ rest) [] = false
same_bytes (a ∷ rest) (b ∷ bs) = a == b && same_bytes rest bs

-- `identity_and_path_must_match`
unfoldable pub check_entry : Hashing → RegistryEntry → Bool
check_entry h entry =
    entry.entry_id == h.entry_uuid entry.artifact_id entry.artifact_manifest_sha256
    && h.is_relative entry.artifact_manifest_relative_path

abbrev pub valid_entry : Hashing → Option RegistryEntry → Result ArtifactFailureCode RegistryEntry
valid_entry h none = err manifest_invalid
valid_entry h (some entry) = if check_entry h entry then ok entry else err manifest_invalid

abbrev pub read_entry : Hashing → Option (List ℕ) → Result ArtifactFailureCode RegistryEntry
read_entry h none = err manifest_invalid
read_entry h (some payload) = do
  entry ← valid_entry h (h.decode_entry payload)
  _ ← raise_if (not (same_bytes (h.encode_entry entry) payload)) manifest_non_canonical
  ok entry

abbrev pub event_files : EventDirectory → Result ArtifactFailureCode (List File)
event_files missing = err registry_transition_invalid
event_files not_a_directory = err registry_transition_invalid
event_files (directory files) = ok files

abbrev pub or_invalid :
    RegistryEvent → Result EventRefusal (Unit {0}) → Result ArtifactFailureCode RegistryEvent
or_invalid e (ok done) = ok e
or_invalid e (err refusal) = err registry_transition_invalid

-- `RegistryEvent.model_validate_json`
abbrev pub validated : Hashing → Option RegistryEvent → Result ArtifactFailureCode RegistryEvent
validated h none = err registry_transition_invalid
validated h (some e) = or_invalid e (check_event h e)

-- The test of one event against the chain so far.
unfoldable pub breaks_chain :
    Hashing → RegistryEntry → File → RegistryEvent → ℕ → Option ℕ → Option RegistryState → Bool
breaks_chain h entry file e sequence previous state =
    not (same_bytes (h.encode e) file.payload)
    || not (e.sequence == sequence)
    || not (e.entry_id == entry.entry_id)
    || not (same_digest e.previous_event_sha256 previous)
    || not (same_state e.from_state state)
    || not (e.evidence.artifact_manifest_sha256 == entry.artifact_manifest_sha256)
    || not (file.name == h.event_file_name e.sequence e.event_id)

-- The loop: the events of the files from `sequence` on, and the state after them.
unfoldable pub load_events :
    Hashing
    → RegistryEntry
    → List File
    → ℕ
    → Option ℕ
    → Option RegistryState
    → Result ArtifactFailureCode (List RegistryEvent × Option RegistryState)
load_events h entry [] sequence previous state = ok ([], state)
load_events h entry (file ∷ files) sequence previous state = do
  e ← validated h (h.decode file.payload)
  _ ← raise_if (breaks_chain h entry file e sequence previous state) registry_transition_invalid
  rest ← load_events h entry files (sequence + 1) (some (h.sha256 file.payload)) (some e.to_state)
  ok (e ∷ rest.0, rest.1)

abbrev pub derived :
    RegistryEntry
    → List RegistryEvent × Option RegistryState
    → Result ArtifactFailureCode LoadedRegistryEntry
derived entry (events, none) = err registry_transition_invalid
derived entry (events, some state) = ok (record { entry = entry; events = events; state = state })

abbrev pub is_unexpected : File → Bool
is_unexpected file = not file.is_json

abbrev pub is_empty : List File → Bool
is_empty [] = true
is_empty (file ∷ files) = false

unfoldable pub load_registry_entry :
    Hashing → EntryDirectory → Result ArtifactFailureCode LoadedRegistryEntry
load_registry_entry h d = do
  entry ← read_entry h d.entry_json
  _ ← raise_if (not (d.unexpected_children == 0)) registry_transition_invalid
  files ← event_files d.events
  _ ← raise_if (any is_unexpected files) registry_transition_invalid
  _ ← raise_if (is_empty files) registry_transition_invalid
  history ← load_events h entry (sort_by (λ (file : File). file.name) files) 1 none none
  derived entry history
