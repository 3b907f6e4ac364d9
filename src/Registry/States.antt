-- ===== src/Registry/States.antt =====
-- src/pl_platform/registry/registry.py: the states that a history can reach.
use ai_powered_premier_leagu.Prelude.{
  ℕ, ◌+◌, ◌==◌, ◌≡◌, ◌≢◌, ◌≤◌, ◌<◌, refl, ap, subst, ◌∙◌, Bool, true, false, not, Option, none,
  some, List, [], ◌∷◌, length, Result, ok, err, ◌>>◌, raise_if, any, sort_by, arith, bind_ok,
}
use ai_powered_premier_leagu.Registry.{
  RegistryState, RegistryAction, RegistryEntry, RegistryEvent, Hashing, candidate,
  development_accepted, active, retired, rejected, activate, registry_transition_invalid,
  is_expected, is_action, expected_action, check_event, check_transition, is_bad_event,
  field_invalid, EventRefusal, check_link, check_assessment, check_reason, expected_event_id,
  action_not_allowed, promotion_closed, event_id_mismatch,
}
use ai_powered_premier_leagu.Registry.Chain.{
  load_events-Link, breaks_chain-Fits, same_state→eq, raise_if_ok,
}
use ai_powered_premier_leagu.Registry.Store.{
  load_registry_entry, load_events, LoadedRegistryEntry, EntryDirectory, File, read_entry,
  event_files, is_unexpected, is_empty, derived,
}

-- How far a state is along a history; the states that are closed off come last.
abbrev pub stage : Option RegistryState → ℕ
stage none = 0
stage (some candidate) = 1
stage (some development_accepted) = 2
stage (some rejected) = 3
stage (some active) = 4
stage (some retired) = 4

advances :
    (action : RegistryAction) (from_state : Option RegistryState) (to_state : RegistryState)
    → is_expected action (expected_action from_state to_state) ≡ true
    → is_action action activate ≡ false
    → stage from_state ≤ 3
    → (stage from_state < stage (some to_state)) × (stage (some to_state) ≤ 3)
advances action none candidate fits shut = λ early. (omega arith, omega arith)
advances action none development_accepted fits shut = cc
advances action none active fits shut = cc
advances action none retired fits shut = cc
advances action none rejected fits shut = cc
advances action (some candidate) candidate fits shut = cc
advances action (some candidate) development_accepted fits shut =
    λ early. (omega arith, omega arith)
advances action (some candidate) active fits shut = cc
advances action (some candidate) retired fits shut = cc
advances action (some candidate) rejected fits shut = λ early. (omega arith, omega arith)
advances action (some development_accepted) candidate fits shut = cc
advances action (some development_accepted) development_accepted fits shut = cc
advances action (some development_accepted) active fits shut = ground arith
advances action (some development_accepted) retired fits shut = cc
advances action (some development_accepted) rejected fits shut = λ early. (omega arith, omega arith)
advances action (some rejected) to_state fits shut = ground arith
advances action (some active) to_state fits shut = λ early. ground arith
advances action (some retired) to_state fits shut = λ early. ground arith

-- An accepted event passed each test.
pub guards :
    (first : Bool) (link assessment reason : Result EventRefusal (Unit {0})) (closed last : Bool)
    (x y z : EventRefusal)
    → (raise_if first x >> link >> assessment >> reason >> raise_if closed y >> raise_if last z)
      ≡ ok tt
    → (first ≡ false) × (closed ≡ false)
guards true link assessment reason closed last x y z passed = cc
guards false (err r) assessment reason closed last x y z passed = cc
guards false (ok _) (err r) reason closed last x y z passed = cc
guards false (ok _) (ok _) (err r) closed last x y z passed = cc
guards false (ok _) (ok _) (ok _) true last x y z passed = cc
guards false (ok _) (ok _) (ok _) false last x y z passed = (refl, refl)

check_event-advances :
    (h : Hashing) (e : RegistryEvent)
    → check_event h e ≡ ok tt
    → stage e.from_state ≤ 3
    → (stage e.from_state < stage (some e.to_state)) × (stage (some e.to_state) ≤ 3)
unfolding check_event check_transition
check_event-advances h e accepted early =
    let fields = bind_ok (raise_if (is_bad_event e) field_invalid) _ accepted in
    let passed =
      guards (not (is_expected e.action (expected_action e.from_state e.to_state))) (check_link e)
        (check_assessment e) (check_reason e) (is_action e.action activate)
        (not (e.event_id == expected_event_id h e)) action_not_allowed promotion_closed
        event_id_mismatch (fields.2) in
    let fits = passed.0 in advances e.action e.from_state e.to_state (ground arith) (passed.1) early

load_events-advances :
    (h : Hashing) (entry : RegistryEntry) (files : List File) (sequence : ℕ) (previous : Option ℕ)
    (state : Option RegistryState) (events : List RegistryEvent) (after : Option RegistryState)
    → load_events h entry files sequence previous state ≡ ok (events, after)
    → stage state ≤ 3
    → (length events + stage state ≤ stage after) × (stage after ≤ 3)
unfolding load_events
load_events-advances h entry [] sequence previous state events after loaded early =
    let same : state ≡ after = cc in
    let nothing : [] ≡ events = cc in
    let count = ap length nothing in let stages = ap stage same in (omega arith, omega arith)
load_events-advances h entry (file ∷ files) sequence previous state events after loaded early =
    let link = load_events-Link h entry file files sequence previous state events after loaded in
    let fits = breaks_chain-Fits h entry file link.event sequence previous state link.unbroken in
    let from_here = ap stage (same_state→eq link.event.from_state state fits.continued) in
    let step = check_event-advances h link.event link.accepted (omega arith) in
    let rest =
      load_events-advances h entry files (sequence + 1) (some (h.sha256 file.payload))
        (some link.event.to_state) link.later after link.read (step.1) in
    let count = ap length link.joined in
    let ahead = step.0 in let so_far = rest.0 in (omega arith, rest.1)

-- What loading an entry went through.
pub record Reading (h : Hashing) (d : EntryDirectory) (loaded : LoadedRegistryEntry) : Type 0 where
  pub files : List File
  pub entry_read : read_entry h d.entry_json ≡ ok loaded.entry
  pub nothing_else : not (d.unexpected_children == 0) ≡ false
  pub listed : event_files d.events ≡ ok files
  pub all_json : any is_unexpected files ≡ false
  pub some_file : is_empty files ≡ false
  pub chain :
      load_events h loaded.entry (sort_by (λ (f : File). f.name) files) 1 none none
      ≡ ok (loaded.events, some loaded.state)

derived_ok :
    (entry : RegistryEntry) (history : List RegistryEvent × Option RegistryState)
    (loaded : LoadedRegistryEntry)
    → derived entry history ≡ ok loaded
    → (entry ≡ loaded.entry) × (history ≡ (loaded.events, some loaded.state))
derived_ok entry (events, none) loaded got = cc
derived_ok entry (events, some state) loaded got =
    let whole : record { entry = entry; events = events; state = state } ≡ loaded = cc in
    (
      ap (λ (l : LoadedRegistryEntry). l.entry) whole,
      ap (λ (l : LoadedRegistryEntry). (l.events, some l.state)) whole,
    )

pub load_registry_entry-Reading :
    (h : Hashing) (d : EntryDirectory) (loaded : LoadedRegistryEntry)
    → load_registry_entry h d ≡ ok loaded
    → Reading h d loaded
unfolding load_registry_entry
load_registry_entry-Reading h d loaded got =
    let a = bind_ok (read_entry h d.entry_json) _ got in
    let entry = a.0 in
    let b =
      bind_ok (raise_if (not (d.unexpected_children == 0)) registry_transition_invalid) _ (a.2) in
    let c = bind_ok (event_files d.events) _ (b.2) in
    let files = c.0 in
    let e = bind_ok (raise_if (any is_unexpected files) registry_transition_invalid) _ (c.2) in
    let f = bind_ok (raise_if (is_empty files) registry_transition_invalid) _ (e.2) in
    let g =
      bind_ok (load_events h entry (sort_by (λ (f : File). f.name) files) 1 none none) _ (f.2) in
    let parts = derived_ok entry (g.0) loaded (g.2) in
    record {
      files = files;
      entry_read = a.1 ∙ ap ok (parts.0);
      nothing_else =
          raise_if_ok registry_transition_invalid (not (d.unexpected_children == 0)) (b.1);
      listed = c.1;
      all_json = raise_if_ok registry_transition_invalid (any is_unexpected files) (e.1);
      some_file = raise_if_ok registry_transition_invalid (is_empty files) (f.1);
      chain =
          subst
            (λ en.
              load_events h en (sort_by (λ (f : File). f.name) files) 1 none none
              ≡ ok (loaded.events, some loaded.state))
            (parts.0) (g.1 ∙ ap ok (parts.1));
    }

-- A history that loads has at most three events, and it does not end in the active or the retired
-- state.
pub load_registry_entry-states :
    (h : Hashing) (d : EntryDirectory) (loaded : LoadedRegistryEntry)
    → load_registry_entry h d ≡ ok loaded
    → (loaded.state ≢ active) × (loaded.state ≢ retired) × (length loaded.events ≤ 3)
load_registry_entry-states h d loaded got =
    let reading = load_registry_entry-Reading h d loaded got in
    let bounds =
      load_events-advances h loaded.entry (sort_by (λ (f : File). f.name) reading.files) 1 none none
        loaded.events (some loaded.state) reading.chain (omega arith) in
    let most = bounds.0 in
    let last = bounds.1 in
    (
      λ is_active. let four = ap (λ s. stage (some s)) is_active in omega arith,
      λ is_retired. let four = ap (λ s. stage (some s)) is_retired in omega arith,
      omega arith,
    )
