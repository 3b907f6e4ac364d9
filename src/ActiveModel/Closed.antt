-- ===== src/ActiveModel/Closed.antt =====
-- src/pl_platform/registry/active_model.py: the lookup over the histories of the file system.
use ai_powered_premier_leagu.Prelude.{
  ℕ, ◌==◌, ◌≡◌, ◌≢◌, ◌⊎◌, inl, inr, refl, ap, Bool, true, false, not, Option, none, some, List, [],
  ◌∷◌, filter, All, Result, ok, err, ◌>>=◌, ◌>>◌, map_result, sort_by, Bool-cases,
}
use ai_powered_premier_leagu.Registry.{
  RegistryState, candidate, development_accepted, active, retired, rejected, state_rank,
  RegistryEvent, ArtifactFailureCode, Hashing, last_event, state_after,
}
use ai_powered_premier_leagu.Registry.Store.{LoadedRegistryEntry, load_registry_entry}
use ai_powered_premier_leagu.Registry.States.{load_registry_entry-states}
use ai_powered_premier_leagu.Registry.Decisions.{last_state_lem}
use ai_powered_premier_leagu.ActiveModel.{
  VerifiedRegistryEntry, LookupFailure, load_error, other_error, index_error, no_active_model,
  malformed_registry_history,
}
use ai_powered_premier_leagu.ActiveModel.History.{
  EntryPath, RegistryRoot, malformed_if, require_exact_children, load_history, snapshot, owned_by,
  load_entry, load_path, load_entries, version_name, entries_name,
}
use ai_powered_premier_leagu.ActiveModel.Lookup.{
  ArtifactRoot, is_active, load_current_active_model, resolve,
}

-- A result that satisfies `P`, or the error for a malformed history.
abbrev IsSafe : {Val : Type 0} → (Val → Type 0) → Result LookupFailure Val → Type 0
IsSafe P (ok value) = P value
IsSafe P (err (load_error e)) = e.code ≡ malformed_registry_history
IsSafe P (err other_error) = ⊥
IsSafe P (err index_error) = ⊥

abbrev IsAny : {Val : Type 0} → Val → Type 0
IsAny value = Unit

bind-IsSafe :
    {Val Out : Type 0} (P : Val → Type 0) (Q : Out → Type 0) (step : Result LookupFailure Val)
    (next : Val → Result LookupFailure Out)
    → IsSafe P step
    → ((value : Val) → step ≡ ok value → P value → IsSafe Q (next value))
    → IsSafe Q (step >>= next)
bind-IsSafe P Q (ok value) next safe goes_on = goes_on value refl safe
bind-IsSafe P Q (err (load_error e)) next safe goes_on = safe
bind-IsSafe P Q (err other_error) next safe goes_on = absurd safe
bind-IsSafe P Q (err index_error) next safe goes_on = absurd safe

map_result-IsSafe :
    {Val Out : Type 0} (P : Out → Type 0) (body : Val → Result LookupFailure Out)
    → ((x : Val) → IsSafe P (body x))
    → (xs : List Val) → IsSafe (All P) (map_result body xs)
map_result-IsSafe P body each [] = tt
map_result-IsSafe P body each (x ∷ xs) = bind-IsSafe P (All P) (body x) _ (each x) (λ y is holds.
    bind-IsSafe (All P) (All P) (map_result body xs) _ (map_result-IsSafe P body each xs)
      (λ ys are hold. (holds, hold)))

malformed_if-IsSafe : (test : Bool) → IsSafe IsAny (malformed_if test)
malformed_if-IsSafe true = refl
malformed_if-IsSafe false = tt

require_exact_children-IsSafe :
    (names : Option (List ℕ)) (expected : ℕ) → IsSafe IsAny (require_exact_children names expected)
require_exact_children-IsSafe none expected = refl
require_exact_children-IsSafe (some names) expected = malformed_if-IsSafe _

load_history-IsSafe :
    (r : Result ArtifactFailureCode LoadedRegistryEntry) → IsSafe (λ l. r ≡ ok l) (load_history r)
load_history-IsSafe (ok loaded) = refl
load_history-IsSafe (err code) = refl

owned_by-IsSafe : (id : ℕ) (loaded : LoadedRegistryEntry) → IsSafe IsAny (owned_by id loaded)
owned_by-IsSafe id loaded = elim (Bool-cases (loaded.entry.entry_id == id)) [
  | inl same ↦ rw (same) tt
  | inr other ↦ rw (other) refl
]

-- A snapshot that the lookup passes over.
abbrev IsInactive : VerifiedRegistryEntry → Type 0
IsInactive s = is_active s ≡ false

inactive_state : (s : RegistryState) → s ≢ active → (state_rank s == state_rank active) ≡ false
inactive_state candidate other = refl
inactive_state development_accepted other = refl
inactive_state active other = absurd (other refl)
inactive_state retired other = refl
inactive_state rejected other = refl

snapshot-IsSafe :
    (h : Hashing) (loaded : LoadedRegistryEntry) (head : Option RegistryEvent)
    → state_after head ≡ some loaded.state
    → loaded.state ≢ active
    → IsSafe IsInactive (snapshot h loaded head)
snapshot-IsSafe h loaded none last other = cc
snapshot-IsSafe h loaded (some head) last other = inactive_state loaded.state other

load_entry-IsSafe :
    (h : Hashing) (path : EntryPath) (id : Option ℕ) → IsSafe IsInactive (load_entry h path id)
load_entry-IsSafe h path none = refl
load_entry-IsSafe h path (some id) =
    let r = load_registry_entry h path.contents in
    bind-IsSafe IsAny IsInactive (malformed_if (not path.is_canonical)) _ (malformed_if-IsSafe _)
      (λ _ canonical any.
        bind-IsSafe (λ l. r ≡ ok l) IsInactive (load_history r) _ (load_history-IsSafe r)
          (λ loaded is read.
            bind-IsSafe IsAny IsInactive (owned_by id loaded) _ (owned_by-IsSafe id loaded)
              (λ _ owned any.
                snapshot-IsSafe h loaded (last_event loaded.events)
                  (last_state_lem h path.contents loaded read)
                  ((load_registry_entry-states h path.contents loaded read).0))))

load_path-IsSafe : (h : Hashing) (path : EntryPath) → IsSafe IsInactive (load_path h path)
unfolding load_path
load_path-IsSafe h path =
    bind-IsSafe IsAny IsInactive (malformed_if (not path.is_ordinary)) _ (malformed_if-IsSafe _)
      (λ _ ordinary any. load_entry-IsSafe h path path.directory_id)

then-IsSafe :
    {Out : Type 0} (Q : Out → Type 0) (step : Result LookupFailure (Unit {0}))
    (next : Result LookupFailure Out)
    → IsSafe IsAny step
    → IsSafe Q next
    → IsSafe Q (step >> next)
then-IsSafe Q step next first second =
    bind-IsSafe IsAny Q step (λ _. next) first (λ _ is any. second)

load_entries-IsSafe : (h : Hashing) (r : RegistryRoot) → IsSafe (All IsInactive) (load_entries h r)
unfolding load_entries
load_entries-IsSafe h r = elim (Bool-cases r.is_there) [
  | inr gone ↦ rw (gone) (
      then-IsSafe (All IsInactive) (malformed_if r.is_symlink) (ok [])
        (malformed_if-IsSafe r.is_symlink) tt)
  | inl there ↦
      let paths = sort_by (λ (p : EntryPath). p.name) r.entry_paths in
      let tests =
        then-IsSafe IsAny _ _
          (then-IsSafe IsAny _ _
            (then-IsSafe IsAny _ _
              (then-IsSafe IsAny _ _ (malformed_if-IsSafe (not r.root.is_ordinary))
                (require_exact_children-IsSafe r.root.children version_name))
              (malformed_if-IsSafe (not r.version.is_ordinary)))
            (require_exact_children-IsSafe r.version.children entries_name))
          (malformed_if-IsSafe (not r.entries)) in
      rw (there) (
        then-IsSafe (All IsInactive) _ (map_result (load_path h) paths) tests
          (map_result-IsSafe IsInactive (load_path h) (load_path-IsSafe h) paths))
]

filter-inactive :
    (snapshots : List VerifiedRegistryEntry)
    → All IsInactive snapshots
    → filter is_active snapshots ≡ []
filter-inactive [] each = refl
filter-inactive (s ∷ snapshots) each = rw (each.0) (filter-inactive snapshots (each.1))

-- The error of the lookup, from what the file system's source gives.
abbrev pub lookup_error : Result LookupFailure (List VerifiedRegistryEntry) → LookupFailure
lookup_error (ok snapshots) = load_error (record { code = no_active_model; entry_id = none })
lookup_error (err raised) = raised

-- Whether a failure is one of the two errors for a registry that has no active model.
abbrev pub HasNoActive : LookupFailure → Type 0
HasNoActive (load_error e) = (e.code ≡ no_active_model) ⊎ (e.code ≡ malformed_registry_history)
HasNoActive other_error = ⊥
HasNoActive index_error = ⊥

closed_source :
    (h : Hashing) (root : ArtifactRoot) (source : Result LookupFailure (List VerifiedRegistryEntry))
    → IsSafe (All IsInactive) source
    → (load_current_active_model h root source ≡ err (lookup_error source))
      × HasNoActive (lookup_error source)
unfolding load_current_active_model
closed_source h root (ok snapshots) safe =
    (ap (resolve h root) (filter-inactive snapshots safe), inl refl)
closed_source h root (err (load_error e)) safe = (refl, inr safe)
closed_source h root (err other_error) safe = absurd safe
closed_source h root (err index_error) safe = absurd safe

-- Over the file system's histories the lookup loads no model, whatever the registry and the artifact
-- root hold: it raises the error of a malformed history where a history does not verify, and the
-- error for no active model where all do.
pub load_current_active_model-closed :
    (h : Hashing) (root : ArtifactRoot) (registry : RegistryRoot)
    → let source = load_entries h registry in
      (load_current_active_model h root source ≡ err (lookup_error source))
      × HasNoActive (lookup_error source)
load_current_active_model-closed h root registry =
    closed_source h root (load_entries h registry) (load_entries-IsSafe h registry)
