-- ===== src/ActiveModel/History.antt =====
-- src/pl_platform/registry/active_model.py, FilesystemRegistryHistorySource: the head of every history
-- below a registry root.
use ai_powered_premier_leagu.Prelude.{
  ℕ, ◌==◌, Bool, true, false, not, ◌&&◌, Option, none, some, List, [], length, any, all, Result, ok,
  err, ◌>>=◌, ◌>>◌, map_result, sort_by, if◌then◌else◌,
}
use ai_powered_premier_leagu.Registry.{RegistryEvent, ArtifactFailureCode, Hashing, last_event}
use ai_powered_premier_leagu.Registry.Store.{
  EntryDirectory, LoadedRegistryEntry, load_registry_entry,
}
use ai_powered_premier_leagu.ActiveModel.{
  VerifiedRegistryEntry, LookupFailure, index_error, failed, failed_at, malformed_registry_history,
}

-- Whether a path is a directory and no link, and the names in it where they can be read.
pub record Folder : Type 0 where
  pub is_ordinary : Bool
  pub children : Option (List ℕ)

-- A path below `entries`: its name as its place in the order of names, the UUID that the name
-- parses as, and whether the name is that UUID's own text.
pub record EntryPath : Type 0 where
  pub name : ℕ
  pub is_ordinary : Bool
  pub directory_id : Option ℕ
  pub is_canonical : Bool
  pub contents : EntryDirectory

pub record RegistryRoot : Type 0 where
  pub is_there : Bool
  pub is_symlink : Bool
  pub root : Folder
  pub version : Folder
  pub entries : Bool
  pub entry_paths : List EntryPath

abbrev pub version_name : ℕ
version_name = 1

abbrev pub entries_name : ℕ
entries_name = 2

-- `_malformed`, where the test holds.
abbrev pub malformed_if : Bool → Result LookupFailure (Unit {0})
malformed_if false = ok tt
malformed_if true = failed malformed_registry_history

abbrev pub require_directory : Bool → Result LookupFailure (Unit {0})
require_directory is_ordinary = malformed_if (not is_ordinary)

-- `_require_exact_children`, for a set of one name.
abbrev pub require_exact_children : Option (List ℕ) → ℕ → Result LookupFailure (Unit {0})
require_exact_children none expected = failed malformed_registry_history
require_exact_children (some names) expected =
    malformed_if (not (any (λ n. n == expected) names && all (λ n. n == expected) names))

-- `_load_history`
abbrev pub load_history :
    Result ArtifactFailureCode LoadedRegistryEntry → Result LookupFailure LoadedRegistryEntry
load_history (err code) = failed malformed_registry_history
load_history (ok loaded) = ok loaded

abbrev pub snapshot :
    Hashing
    → LoadedRegistryEntry
    → Option RegistryEvent
    → Result LookupFailure VerifiedRegistryEntry
snapshot h loaded none = err index_error
snapshot h loaded (some head) = ok (record {
  entry = loaded.entry;
  state = loaded.state;
  event_count = length loaded.events;
  head_event_id = head.event_id;
  head_event_sha256 = h.sha256 (h.encode head);
})

abbrev pub owned_by : ℕ → LoadedRegistryEntry → Result LookupFailure (Unit {0})
owned_by directory_id loaded =
    if loaded.entry.entry_id == directory_id
    then ok tt
    else failed_at malformed_registry_history loaded.entry

-- The rest of the loop's body, for a name that parses as a UUID.
abbrev pub load_entry : Hashing → EntryPath → Option ℕ → Result LookupFailure VerifiedRegistryEntry
load_entry h path none = failed malformed_registry_history
load_entry h path (some directory_id) = do
  _ ← malformed_if (not path.is_canonical)
  loaded ← load_history (load_registry_entry h path.contents)
  _ ← owned_by directory_id loaded
  snapshot h loaded (last_event loaded.events)

unfoldable pub load_path : Hashing → EntryPath → Result LookupFailure VerifiedRegistryEntry
load_path h path = malformed_if (not path.is_ordinary) >> load_entry h path path.directory_id

-- `load_entries`
unfoldable pub load_entries :
    Hashing → RegistryRoot → Result LookupFailure (List VerifiedRegistryEntry)
load_entries h r =
    if not r.is_there
    then malformed_if r.is_symlink >> ok []
    else require_directory r.root.is_ordinary
      >> require_exact_children r.root.children version_name
      >> require_directory r.version.is_ordinary
      >> require_exact_children r.version.children entries_name
      >> require_directory r.entries
      >> map_result (load_path h) (sort_by (λ (p : EntryPath). p.name) r.entry_paths)
