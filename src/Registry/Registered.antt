-- ===== src/Registry/Registered.antt =====
-- src/pl_platform/registry/registry.py: registering an artifact, once and again.
use ai_powered_premier_leagu.Prelude.{
  ℕ, ◌==◌, ◌≡◌, refl, sym, ap, ◌∙◌, true, false, none, some, List, [], ◌∷◌, ok, arith,
}
use ai_powered_premier_leagu.Registry.{
  RegistryEntry, RegistryEvent, Hashing, candidate, register, check_event, check_transition,
  next_event, make_event, expected_event_id,
}
use ai_powered_premier_leagu.Registry.Store.{
  EntryDirectory, LoadedRegistryEntry, check_entry, load_registry_entry, load_events, read_entry,
  breaks_chain,
}
use ai_powered_premier_leagu.Registry.Chain.{same_bytes_refl}
use ai_powered_premier_leagu.Registry.Changes.{event_file, with_file, result_of}
use ai_powered_premier_leagu.Registry.Outcomes.{IsFaithful}
use ai_powered_premier_leagu.Registry.Registration.{
  ModelArtifact, entry_of, registration, empty_directory, with_entry, register_model_artifact,
  register_at,
}

-- An entry is decoded from its own encoding.
pub record IsEntryFaithful (h : Hashing) : Type 0 where
  pub decode-encode_entry :
      (entry : RegistryEntry) → h.decode_entry (h.encode_entry entry) ≡ some entry

abbrev pub registration_event : Hashing → ModelArtifact → List ℕ → RegistryEvent
registration_event h artifact path =
    next_event h (entry_of h artifact path) [] register candidate (registration artifact)

-- The history that registering opens, and its directory.
abbrev pub opened : Hashing → ModelArtifact → List ℕ → LoadedRegistryEntry
opened h artifact path = record {
  entry = entry_of h artifact path;
  events = registration_event h artifact path ∷ [];
  state = candidate;
}

abbrev pub opened_directory : Hashing → ModelArtifact → List ℕ → EntryDirectory
opened_directory h artifact path =
    with_file (with_entry empty_directory (h.encode_entry (entry_of h artifact path)))
      (event_file h (registration_event h artifact path)) []

==-refl : (n : ℕ) → (n == n) ≡ true
==-refl n = ground arith

module _ (h : Hashing) (artifact : ModelArtifact) (path : List ℕ) (faithful : IsFaithful h)
    (entry_faithful : IsEntryFaithful h) (relative : h.is_relative path ≡ true) where
  abbrev entry : RegistryEntry
  entry = entry_of h artifact path

  abbrev first : RegistryEvent
  first = registration_event h artifact path

  accepted : check_event h first ≡ ok tt
  unfolding check_event check_transition
  accepted = rw (==-refl (expected_event_id h first)) refl

  made : make_event h entry [] register candidate (registration artifact) ≡ ok first
  unfolding make_event
  made = rw (accepted) refl

  valid : check_entry h entry ≡ true
  unfolding check_entry
  valid = rw (==-refl entry.entry_id, relative) refl

  entry_read : read_entry h (some (h.encode_entry entry)) ≡ ok entry
  entry_read =
      rw (entry_faithful.decode-encode_entry entry, valid, same_bytes_refl (h.encode_entry entry))
        refl

  unbroken : breaks_chain h entry (event_file h first) first 1 none none ≡ false
  unfolding breaks_chain
  unbroken =
      rw
        (
          same_bytes_refl (h.encode first),
          ==-refl entry.entry_id,
          ==-refl artifact.manifest_sha256,
          ==-refl (h.event_file_name 1 first.event_id),
        )
        refl

  chain :
      load_events h entry (event_file h first ∷ []) 1 none none ≡ ok (first ∷ [], some candidate)
  unfolding load_events
  chain = rw (faithful.decode-encode first refl, accepted, unbroken) refl

  pub opened_loads :
      load_registry_entry h (opened_directory h artifact path) ≡ ok (opened h artifact path)
  unfolding load_registry_entry
  opened_loads = rw (entry_read, chain) refl

  pub registers_first :
      register_at h artifact empty_directory (some path)
      ≡ (opened_directory h artifact path, result_of true (ok (opened h artifact path)))
  registers_first = rw (valid, made, opened_loads) refl

  pub registers_again :
      register_at h artifact (opened_directory h artifact path) (some path)
      ≡ (opened_directory h artifact path, result_of false (ok (opened h artifact path)))
  registers_again =
      rw
        (
          valid,
          same_bytes_refl (h.encode_entry entry),
          made,
          ==-refl (h.event_file_name 1 first.event_id),
          same_bytes_refl (h.encode first),
          opened_loads,
        )
        refl

-- With a faithful codec, registering a verified artifact whose manifest has a relative path below
-- the artifact root opens a history: the directory that it leaves loads as the entry of the
-- artifact with one event, in the candidate state, and the answer says that it was written.
-- Registering the same artifact again leaves the directory as it is and answers that it is already
-- current.
pub register_model_artifact_twice :
    (h : Hashing) (artifact : ModelArtifact) (path : List ℕ)
    → IsFaithful h
    → IsEntryFaithful h
    → h.is_relative path ≡ true
    → artifact.relative_path ≡ some path
    → let once = register_model_artifact h (ok artifact) empty_directory in
      let loaded = opened h artifact path in
      (load_registry_entry h (once.0) ≡ ok loaded)
      × (once.1 ≡ result_of true (ok loaded))
      × (register_model_artifact h (ok artifact) (once.0) ≡ (once.0, result_of false (ok loaded)))
unfolding register_model_artifact
register_model_artifact_twice h artifact path faithful entry_faithful relative inside =
    let placed = ap (register_at h artifact empty_directory) inside in
    let once = placed ∙ registers_first h artifact path faithful entry_faithful relative in
    let again = registers_again h artifact path faithful entry_faithful relative in
    (
      ap (λ c. load_registry_entry h (c.0)) once
          ∙ opened_loads h artifact path faithful entry_faithful relative,
      ap (λ c. c.1) once,
      ap (λ c. register_at h artifact (c.0) artifact.relative_path) once
          ∙ ap (register_at h artifact (opened_directory h artifact path)) inside
          ∙ again
          ∙ ap (λ c. (c.0, result_of false (ok (opened h artifact path)))) (sym once),
    )
