-- ===== src/Registry/Outcomes.antt =====
-- src/pl_platform/registry/registry.py: what an accepted event does to the directory of its entry.
use ai_powered_premier_leagu.Prelude.{
  ℕ, ◌+◌, ◌≡◌, ◌<◌, refl, sym, ap, ◌∙◌, true, none, some, List, [], ◌∷◌, ◌++◌, All, length, ok, all,
  sort_by, arith, ltb, all-sort_by, false, raise_if, bind_ok, Bool-cases, inl, inr,
}
use ai_powered_premier_leagu.Registry.{
  RegistryState, RegistryAction, RegistryEvent, RegistryEvidence, Hashing, same_state, same_digest,
  check_event, is_bad_event, field_invalid, last_event, state_after, digest_after, next_event,
}
use ai_powered_premier_leagu.Registry.Store.{
  load_registry_entry, LoadedRegistryEntry, EntryDirectory, EventDirectory, missing,
  not_a_directory, directory, File, event_files,
}
use ai_powered_premier_leagu.Registry.Chain.{
  Fits, same_bytes_refl, same_state_refl, same_digest_refl,
}
use ai_powered_premier_leagu.Registry.States.{
  Reading, load_registry_entry-Reading, load_registry_entry-states,
}
use ai_powered_premier_leagu.Registry.Changes.{
  payload_at, event_file, with_file, result_of, append_event,
}
use ai_powered_premier_leagu.Registry.Append.{
  digest_from, digest_from-none, state_from-none, load_events-state, load_events-snoc, IsOrdered,
  load_events-names, insert_by-last,
}

-- What the program relies on of the codec and of the names of the files.
pub record IsFaithful (h : Hashing) : Type 0 where
  pub decode-encode : (e : RegistryEvent) → is_bad_event e ≡ false → h.decode (h.encode e) ≡ some e
  pub ordered : IsOrdered h

check_event-fields :
    (h : Hashing) (e : RegistryEvent) → check_event h e ≡ ok tt → is_bad_event e ≡ false
unfolding check_event
check_event-fields h e accepted = elim (Bool-cases (is_bad_event e)) [
  | inl bad ↦
      let first = bind_ok (raise_if (is_bad_event e) field_invalid) _ accepted in
      absurd (ground (arith, first.1))
  | inr good ↦ good
]

below-all :
    (n : ℕ) (files : List File)
    → All (λ (f : File). f.name < n) files
    → all (λ (f : File). ltb f.name n) files ≡ true
below-all n [] below = refl
below-all n (f ∷ files) below = let first = below.0 in ground (arith, below-all n files (below.1))

payload_at-below :
    (n : ℕ) (files : List File)
    → all (λ (f : File). ltb f.name n) files ≡ true
    → payload_at n files ≡ none
payload_at-below n [] below = refl
payload_at-below n (f ∷ files) below = ground (arith, payload_at-below n files)

listed-directory :
    (events : EventDirectory) (files : List File)
    → event_files events ≡ ok files
    → events ≡ directory files
listed-directory missing files listed = cc
listed-directory not_a_directory files listed = cc
listed-directory (directory fs) files listed = cc

module _ (h : Hashing) (faithful : IsFaithful h) (d : EntryDirectory) (loaded : LoadedRegistryEntry)
    (got : load_registry_entry h d ≡ ok loaded) where
  reading : Reading h d loaded
  reading = load_registry_entry-Reading h d loaded got

  -- The history with one more event.
  unfoldable pub grown : RegistryEvent → LoadedRegistryEntry
  grown e = record { entry = loaded.entry; events = loaded.events ++ e ∷ []; state = e.to_state }

  module _ (action : RegistryAction) (to_state : RegistryState) (evidence : RegistryEvidence)
      (accepted : check_event h (next_event h loaded.entry loaded.events action to_state evidence)
        ≡ ok tt)
      (evidenced : evidence.artifact_manifest_sha256 ≡ loaded.entry.artifact_manifest_sha256) where
    unfoldable pub new : RegistryEvent
    new = next_event h loaded.entry loaded.events action to_state evidence

    sorted_files : List File
    sorted_files = sort_by (λ (f : File). f.name) (reading.files)

    last_state : some loaded.state ≡ state_after (last_event loaded.events)
    unfolding sorted_files reading
    last_state =
        load_events-state h loaded.entry sorted_files loaded.events (some loaded.state) 1 none none
          (reading.chain)
        ∙ state_from-none loaded.events

    new-Fits :
        Fits h loaded.entry
          (event_file h new)
          new
          (1 + length loaded.events)
          (digest_from h none loaded.events)
          (some loaded.state)
    unfolding new
    new-Fits = record {
      canonical = same_bytes_refl (h.encode new);
      numbered = ground arith;
      owned = ground arith;
      linked =
          ap (same_digest (digest_after h (last_event loaded.events)))
            (digest_from-none h loaded.events)
          ∙ same_digest_refl (digest_after h (last_event loaded.events));
      continued =
          ap (λ st. same_state st (some loaded.state)) (sym last_state)
          ∙ same_state_refl (some loaded.state);
      evidenced = ground arith;
      named = ground arith;
    }

    pub extended : EntryDirectory
    extended = with_file d (event_file h new) (reading.files)

    names : All (λ (f : File). f.name < h.event_file_name new.sequence new.event_id) sorted_files
    unfolding new sorted_files reading
    names =
        let short = load_registry_entry-states h d loaded got in
        let few = short.2 in
        load_events-names h loaded.entry (faithful.ordered) new.sequence new.event_id (omega arith)
          sorted_files loaded.events (some loaded.state) 1 none none (reading.chain) (omega arith)

    pub extended-loads : load_registry_entry h extended ≡ ok (grown new)
    unfolding load_registry_entry extended grown sorted_files new
    extended-loads =
        let inserted = insert_by-last (event_file h new) sorted_files names in
        let read =
          load_events-snoc h loaded.entry (event_file h new) new
            (faithful.decode-encode new (check_event-fields h new accepted)) accepted sorted_files
            loaded.events (some loaded.state) 1 (1 + length loaded.events) none
            (digest_from h none loaded.events) none (reading.chain) refl refl new-Fits in
        rw (reading.entry_read, reading.nothing_else, reading.all_json, inserted, read) refl

    absent : payload_at (h.event_file_name new.sequence new.event_id) (reading.files) ≡ none
    unfolding sorted_files
    absent =
        let n = h.event_file_name new.sequence new.event_id in
        payload_at-below n (reading.files) (
          sym (all-sort_by (λ (f : File). f.name) (λ (f : File). ltb f.name n) (reading.files))
          ∙ below-all n sorted_files names)

    -- An accepted event is written and read back.
    pub append_event-loads : append_event h d (ok new) ≡ (extended, result_of true (ok (grown new)))
    unfolding extended
    append_event-loads =
        rw (listed-directory d.events (reading.files) (reading.listed), absent, extended-loads) refl
