-- ===== src/Registry/Append.antt =====
-- src/pl_platform/registry/registry.py: appending an event to a history and reading it back.
use ai_powered_premier_leagu.Prelude.{
  ℕ, ◌+◌, ◌≡◌, ◌≤◌, ◌<◌, refl, sym, ap, ◌∙◌, false, Option, none, some, List, [], ◌∷◌, ◌++◌, All,
  length, ok, insert_by, arith, ==→eq, subst,
}
use ai_powered_premier_leagu.Registry.{
  RegistryState, RegistryEntry, RegistryEvent, Hashing, check_event, last_event, state_after,
  digest_after,
}
use ai_powered_premier_leagu.Registry.Store.{load_events, File, breaks_chain}
use ai_powered_premier_leagu.Registry.Chain.{
  load_events-Link, Fits, breaks_chain-Fits, Fits-unbroken, same_bytes→eq,
}

-- The digest and the state that the next event has to link to.
abbrev pub digest_from : Hashing → Option ℕ → List RegistryEvent → Option ℕ
digest_from h previous [] = previous
digest_from h previous (e ∷ es) = digest_from h (some (h.sha256 (h.encode e))) es

abbrev pub state_from : Option RegistryState → List RegistryEvent → Option RegistryState
state_from state [] = state
state_from state (e ∷ es) = state_from (some e.to_state) es

digest_from-last :
    (h : Hashing) (previous : Option ℕ) (e : RegistryEvent) (es : List RegistryEvent)
    → digest_from h previous (e ∷ es) ≡ digest_after h (last_event (e ∷ es))
digest_from-last h previous e [] = refl
digest_from-last h previous e (f ∷ es) = digest_from-last h (some (h.sha256 (h.encode e))) f es

pub digest_from-none :
    (h : Hashing) (es : List RegistryEvent) → digest_from h none es ≡ digest_after h (last_event es)
digest_from-none h [] = refl
digest_from-none h (e ∷ es) = digest_from-last h none e es

state_from-last :
    (state : Option RegistryState) (e : RegistryEvent) (es : List RegistryEvent)
    → state_from state (e ∷ es) ≡ state_after (last_event (e ∷ es))
state_from-last state e [] = refl
state_from-last state e (f ∷ es) = state_from-last (some e.to_state) f es

pub state_from-none : (es : List RegistryEvent) → state_from none es ≡ state_after (last_event es)
state_from-none [] = refl
state_from-none (e ∷ es) = state_from-last none e es

module _ (h : Hashing) (entry : RegistryEntry) where
  load_events-cons :
      (file : File) (files : List File) (e : RegistryEvent) (later : List RegistryEvent)
      (after : Option RegistryState) (sequence : ℕ) (previous : Option ℕ)
      (state : Option RegistryState)
      → h.decode file.payload ≡ some e
      → check_event h e ≡ ok tt
      → breaks_chain h entry file e sequence previous state ≡ false
      → load_events h entry files (sequence + 1) (some (h.sha256 file.payload)) (some e.to_state)
        ≡ ok (later, after)
      → load_events h entry (file ∷ files) sequence previous state ≡ ok (e ∷ later, after)
  unfolding load_events
  load_events-cons file files e later after sequence previous state decoded accepted unbroken read =
      rw (decoded, accepted, unbroken, read) refl

  -- The state after a history is that of its last event.
  pub load_events-state :
      (files : List File) (events : List RegistryEvent) (after : Option RegistryState)
      (sequence : ℕ) (previous : Option ℕ) (state : Option RegistryState)
      → load_events h entry files sequence previous state ≡ ok (events, after)
      → after ≡ state_from state events
  unfolding load_events
  load_events-state [] events after sequence previous state loaded =
      let nothing : [] ≡ events = cc in
      let same : state ≡ after = cc in sym same ∙ ap (state_from state) nothing
  load_events-state (file ∷ files) events after sequence previous state loaded =
      let link = load_events-Link h entry file files sequence previous state events after loaded in
      load_events-state files link.later after (sequence + 1) (some (h.sha256 file.payload))
        (some link.event.to_state) link.read
      ∙ ap (state_from state) (sym link.joined)

  -- A file that fits what the history links to is read after it.
  pub load_events-snoc :
      (new : File) (e : RegistryEvent)
      → h.decode new.payload ≡ some e
      → check_event h e ≡ ok tt
      → (files : List File) (events : List RegistryEvent) (after : Option RegistryState)
        (sequence place : ℕ) (previous linked : Option ℕ) (state : Option RegistryState)
      → load_events h entry files sequence previous state ≡ ok (events, after)
      → place ≡ sequence + length events
      → linked ≡ digest_from h previous events
      → Fits h entry new e place linked after
      → load_events h entry (files ++ new ∷ []) sequence previous state
        ≡ ok (events ++ e ∷ [], some e.to_state)
  unfolding load_events
  load_events-snoc new e decoded accepted [] events after sequence place previous linked state
        loaded here link fits =
      let nothing : [] ≡ events = cc in
      let same : state ≡ after = cc in
      let first : place ≡ sequence = here ∙ (let none_yet = ap length nothing in omega arith) in
      let digest : linked ≡ previous = link ∙ ap (digest_from h previous) (sym nothing) in
      let fits_first =
        subst (λ n. Fits h entry new e n previous state) first
          (subst (λ d. Fits h entry new e place d state) digest
            (subst (λ s. Fits h entry new e place linked s) (sym same) fits)) in
      load_events-cons new [] e [] (some e.to_state) sequence previous state decoded accepted
        (Fits-unbroken h entry new e sequence previous state fits_first) refl
      ∙ ap (λ es. ok (es ++ e ∷ [], some e.to_state)) nothing
  load_events-snoc new e decoded accepted (file ∷ files) events after sequence place previous linked
        state loaded here link fits =
      let step = load_events-Link h entry file files sequence previous state events after loaded in
      let chained =
        breaks_chain-Fits h entry file step.event sequence previous state step.unbroken in
      let bytes = same_bytes→eq (h.encode step.event) file.payload chained.canonical in
      let count = ap length step.joined in
      let rest =
        load_events-snoc new e decoded accepted files step.later after (sequence + 1) place
          (some (h.sha256 file.payload)) linked (some step.event.to_state) step.read (omega arith)
          (link
            ∙ ap (digest_from h previous) step.joined
            ∙ ap (λ b. digest_from h (some (h.sha256 b)) step.later) bytes)
          fits in
      load_events-cons file (files ++ new ∷ []) step.event (step.later ++ e ∷ []) (some e.to_state)
        sequence previous state step.decoded step.accepted step.unbroken rest
      ∙ ap (λ es. ok (es ++ e ∷ [], some e.to_state)) (sym step.joined)

-- What the order of the names relies on: a zero-padded sequence number of six digits comes first.
pub record IsOrdered (h : Hashing) : Type 0 where
  pub in_order : (a i b j : ℕ) → a < b → b ≤ 999999 → h.event_file_name a i < h.event_file_name b j

module _ (h : Hashing) (entry : RegistryEntry) (ordered : IsOrdered h) where
  pub load_events-names :
      (n id : ℕ)
      → n ≤ 999999
      → (files : List File) (events : List RegistryEvent) (after : Option RegistryState)
        (sequence : ℕ) (previous : Option ℕ) (state : Option RegistryState)
      → load_events h entry files sequence previous state ≡ ok (events, after)
      → sequence + length events ≤ n
      → All (λ (f : File). f.name < h.event_file_name n id) files
  unfolding load_events
  load_events-names n id short [] events after sequence previous state loaded ahead = tt
  load_events-names n id short (file ∷ files) events after sequence previous state loaded ahead =
      let step = load_events-Link h entry file files sequence previous state events after loaded in
      let chained =
        breaks_chain-Fits h entry file step.event sequence previous state step.unbroken in
      let count = ap length step.joined in
      let number = ==→eq step.event.sequence sequence chained.numbered in
      let name =
        ==→eq file.name (h.event_file_name step.event.sequence step.event.event_id) chained.named in
      let before =
        ordered.in_order step.event.sequence step.event.event_id n id (omega arith) short in
      (
        omega arith,
        load_events-names n id short files step.later after (sequence + 1)
            (some (h.sha256 file.payload)) (some step.event.to_state) step.read (omega arith),
      )

pub insert_by-last :
    (x : File) (xs : List File)
    → All (λ (f : File). f.name < x.name) xs
    → insert_by (λ (f : File). f.name) x xs ≡ xs ++ x ∷ []
insert_by-last x [] below = refl
insert_by-last x (y ∷ ys) below =
    let first = below.0 in ground (arith, insert_by-last x ys (below.1))
