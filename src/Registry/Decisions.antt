-- ===== src/Registry/Decisions.antt =====
-- src/pl_platform/registry/registry.py: rejecting, accepting and promoting an entry.
use ai_powered_premier_leagu.Prelude.{
  ℕ, ◌==◌, ◌≡◌, refl, sym, ap, ◌∙◌, true, false, not, Option, none, some, List, [], ◌∷◌, ◌++◌,
  Result, ok, err, is_none, sort_by, arith, length, ◌+◌, raise_if, bind_ok, ◌⊎◌, inl, inr,
  Result-cases,
}
use ai_powered_premier_leagu.Registry.{
  RegistryState, RegistryEntry, RegistryEvent, RegistryEvidence, Hashing, ArtifactFailureCode,
  candidate, development_accepted, active, rejected, accept_development, activate, reject,
  is_action, final_test_evidence_required, expected_action, is_expected, check_link,
  check_assessment, check_reason, expected_event_id, action_not_allowed, promotion_closed,
  event_id_mismatch, or_code, check_transition, is_bad_event, field_invalid, is_blank_reason,
  is_blank, check_event, last_event, state_after, digest_after, next_event, make_event,
}
use ai_powered_premier_leagu.Registry.Store.{
  load_registry_entry, LoadedRegistryEntry, EntryDirectory, File,
}
use ai_powered_premier_leagu.Registry.States.{load_registry_entry-Reading, guards}
use ai_powered_premier_leagu.Registry.Changes.{
  Artifact, result_of, append_event, reject_registry_entry, rejection, reject_loaded,
  accept_development_candidate, acceptance, mismatches, request_active_promotion, promotion,
  accept_loaded,
}
use ai_powered_premier_leagu.Registry.Append.{state_from-none, load_events-state}
use ai_powered_premier_leagu.Registry.Outcomes.{
  IsFaithful, grown, new, append_event-loads, extended-loads,
}

linked-previous :
    (h : Hashing) (last : Option RegistryEvent) (s : RegistryState)
    → state_after last ≡ some s
    → is_none (digest_after h last) ≡ false
linked-previous h none s is = cc
linked-previous h (some e) s is = refl

pub last_state_lem :
    (h : Hashing) (d : EntryDirectory) (loaded : LoadedRegistryEntry)
    → load_registry_entry h d ≡ ok loaded
    → state_after (last_event loaded.events) ≡ some loaded.state
last_state_lem h d loaded got =
    let reading = load_registry_entry-Reading h d loaded got in
    sym (
      load_events-state h loaded.entry (sort_by (λ (f : File). f.name) (reading.files))
        loaded.events (some loaded.state) 1 none none (reading.chain)
      ∙ state_from-none loaded.events)

==-refl : (n : ℕ) → (n == n) ≡ true
==-refl n = ground arith

positive : (events : List RegistryEvent) → (length events + 1 == 0) ≡ false
positive events = ground arith

check_event-rejection :
    (h : Hashing) (entry : RegistryEntry) (events : List RegistryEvent)
    (evidence : RegistryEvidence) (s : RegistryState)
    → state_after (last_event events) ≡ some s
    → expected_action (some s) rejected ≡ some reject
    → evidence.assessment_manifest_sha256 ≡ none
    → is_none evidence.rejection_reason ≡ false
    → is_blank_reason evidence.rejection_reason ≡ false
    → check_event h (next_event h entry events reject rejected evidence) ≡ ok tt
unfolding check_event check_transition
check_event-rejection h entry events evidence s is legal bare given full =
    let linked = linked-previous h (last_event events) s is in
    rw
      (
        ==-refl (expected_event_id h (next_event h entry events reject rejected evidence)),
        is,
        legal,
        linked,
        bare,
        given,
        full,
        positive events,
      )
      refl

check_event-acceptance :
    (h : Hashing) (entry : RegistryEntry) (events : List RegistryEvent)
    (evidence : RegistryEvidence)
    → state_after (last_event events) ≡ some candidate
    → is_none evidence.assessment_manifest_sha256 ≡ false
    → evidence.rejection_reason ≡ none
    → check_event h (next_event h entry events accept_development development_accepted evidence)
      ≡ ok tt
unfolding check_event check_transition
check_event-acceptance h entry events evidence is given bare =
    let linked = linked-previous h (last_event events) candidate is in
    rw
      (
        ==-refl (
            expected_event_id h
              (next_event h entry events accept_development development_accepted evidence)),
        is,
        linked,
        given,
        bare,
        positive events,
      )
      refl

promotion-refused :
    (h : Hashing) (entry : RegistryEntry) (events : List RegistryEvent)
    (evidence : RegistryEvidence)
    → make_event h entry events activate active evidence ≡ err final_test_evidence_required
unfolding make_event check_event check_transition
promotion-refused h entry events evidence =
    let e = next_event h entry events activate active evidence in
    elim (Result-cases (check_event h e)) [
      | inl passed ↦
          let fields = bind_ok (raise_if (is_bad_event e) field_invalid) _ (passed.1) in
          let never =
            guards (not (is_expected e.action (expected_action e.from_state e.to_state)))
              (check_link e) (check_assessment e) (check_reason e) (is_action e.action activate)
              (not (e.event_id == expected_event_id h e)) action_not_allowed promotion_closed
              event_id_mismatch (fields.2) in
          absurd (ground (arith, never.1))
      | inr refused ↦ ap (or_code final_test_evidence_required e) (refused.1)
    ]

eligible-legal :
    (s : RegistryState)
    → (s ≡ candidate) ⊎ (s ≡ development_accepted)
    → expected_action (some s) rejected ≡ some reject
eligible-legal s (inl is) = rw (is) refl
eligible-legal s (inr is) = rw (is) refl

-- The error of a promotion, from how loading went.
abbrev pub refusal : Result ArtifactFailureCode LoadedRegistryEntry → ArtifactFailureCode
refusal (err code) = code
refusal (ok loaded) = final_test_evidence_required

-- Whatever the history, a promotion to the active state fails: with the error that loading raises,
-- and with FINAL_TEST_EVIDENCE_REQUIRED where the history loads.
pub request_active_promotion-closed :
    (h : Hashing) (d : EntryDirectory)
    → request_active_promotion h d ≡ err (refusal (load_registry_entry h d))
unfolding request_active_promotion
request_active_promotion-closed h d = elim (Result-cases (load_registry_entry h d)) [
  | inl loads ↦
      rw (loads.1, promotion-refused h loads.0.entry loads.0.events (promotion (loads.0))) refl
  | inr fails ↦ rw (fails.1) refl
]

-- The events that the two changes append to a history.
abbrev pub rejected_by : Hashing → LoadedRegistryEntry → List ℕ → RegistryEvent
rejected_by h loaded reason =
    next_event h loaded.entry loaded.events reject rejected (rejection loaded reason)

abbrev pub accepted_by : Hashing → LoadedRegistryEntry → Artifact → RegistryEvent
accepted_by h loaded artifact =
    next_event h loaded.entry loaded.events accept_development development_accepted
      (acceptance loaded artifact)

abbrev pub with_event : LoadedRegistryEntry → RegistryEvent → LoadedRegistryEntry
with_event loaded e = record {
  entry = loaded.entry;
  events = loaded.events ++ e ∷ [];
  state = e.to_state;
}

-- With a faithful codec and ordered file names, rejecting a candidate or an accepted entry for a
-- reason that is not empty succeeds: it answers with the rejected state and one event more, and the
-- directory that it leaves loads as the history with the rejection at its end.
pub reject_registry_entry-rejects :
    (h : Hashing) (d : EntryDirectory) (loaded : LoadedRegistryEntry) (reason : List ℕ)
    → IsFaithful h
    → load_registry_entry h d ≡ ok loaded
    → (loaded.state ≡ candidate) ⊎ (loaded.state ≡ development_accepted)
    → is_blank reason ≡ false
    → let change = reject_registry_entry h d reason in
      let history = with_event loaded (rejected_by h loaded reason) in
      (change.1 ≡ result_of true (ok history)) × (load_registry_entry h change.0 ≡ ok history)
unfolding reject_registry_entry grown new make_event
reject_registry_entry-rejects h d loaded reason faithful got eligible given =
    let legal = eligible-legal loaded.state eligible in
    let accepted =
      check_event-rejection h loaded.entry loaded.events (rejection loaded reason) loaded.state
        (last_state_lem h d loaded got) legal refl refl given in
    let change : reject_registry_entry h d reason
        ≡ append_event h d (ok (rejected_by h loaded reason)) =
      ap (reject_loaded h d reason) got ∙ (rw (given, accepted) refl) in
    let written =
      append_event-loads h faithful d loaded got reject rejected (rejection loaded reason) accepted
        refl in
    let read =
      extended-loads h faithful d loaded got reject rejected (rejection loaded reason) accepted
        refl in
    (
      ap (λ c. c.1) (change ∙ written),
      ap (λ c. load_registry_entry h (c.0)) (change ∙ written) ∙ read,
    )

-- With a faithful codec and ordered file names, accepting a candidate whose artifact verifies and is
-- the one of the entry succeeds: it answers with the accepted state and one event more, and the
-- directory that it leaves loads as the history with the acceptance at its end.
pub accept_development_candidate-accepts :
    (h : Hashing) (load_model_artifact : List ℕ → Result ArtifactFailureCode Artifact)
    (d : EntryDirectory) (loaded : LoadedRegistryEntry) (artifact : Artifact)
    → IsFaithful h
    → load_registry_entry h d ≡ ok loaded
    → loaded.state ≡ candidate
    → load_model_artifact loaded.entry.artifact_manifest_relative_path ≡ ok artifact
    → mismatches loaded.entry artifact ≡ false
    → let change = accept_development_candidate h load_model_artifact d in
      let history = with_event loaded (accepted_by h loaded artifact) in
      (change.1 ≡ result_of true (ok history)) × (load_registry_entry h change.0 ≡ ok history)
unfolding accept_development_candidate grown new make_event
accept_development_candidate-accepts h load_model_artifact d loaded artifact faithful got is
      verified same =
    let accepted =
      check_event-acceptance h loaded.entry loaded.events (acceptance loaded artifact)
        (last_state_lem h d loaded got ∙ ap some is) refl refl in
    let change : accept_development_candidate h load_model_artifact d
        ≡ append_event h d (ok (accepted_by h loaded artifact)) =
      ap (accept_loaded h load_model_artifact d) got ∙ (rw (is, verified, same, accepted) refl) in
    let written =
      append_event-loads h faithful d loaded got accept_development development_accepted
        (acceptance loaded artifact) accepted refl in
    let read =
      extended-loads h faithful d loaded got accept_development development_accepted
        (acceptance loaded artifact) accepted refl in
    (
      ap (λ c. c.1) (change ∙ written),
      ap (λ c. load_registry_entry h (c.0)) (change ∙ written) ∙ read,
    )
