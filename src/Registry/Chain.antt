-- ===== src/Registry/Chain.antt =====
-- src/pl_platform/registry/registry.py: what reading an event back establishes.
use ai_powered_premier_leagu.Prelude.{
  ℕ, ◌+◌, ◌==◌, ◌≡◌, refl, sym, ap, ap₂, ◌∙◌, Bool, true, false, Option, none, some, List, [], ◌∷◌,
  Result, ok, err, raise_if, arith, bind_ok, ==→eq,
}
use ai_powered_premier_leagu.Registry.{
  RegistryState, RegistryEntry, RegistryEvent, Hashing, ArtifactFailureCode, candidate,
  development_accepted, active, retired, rejected, registry_transition_invalid, state_rank,
  same_state, same_digest, check_event, EventRefusal,
}
use ai_powered_premier_leagu.Registry.Store.{
  load_events, File, validated, or_invalid, breaks_chain, same_bytes,
}

state_rank-injective : (s t : RegistryState) → (state_rank s == state_rank t) ≡ true → s ≡ t
state_rank-injective candidate t h = ground arith
state_rank-injective development_accepted t h = ground arith
state_rank-injective active t h = ground arith
state_rank-injective retired t h = ground arith
state_rank-injective rejected t h = ground arith

pub same_state→eq : (s t : Option RegistryState) → same_state s t ≡ true → s ≡ t
same_state→eq none none h = refl
same_state→eq none (some t) h = cc
same_state→eq (some s) none h = cc
same_state→eq (some s) (some t) h = ap some (state_rank-injective s t h)

pub same_state_refl : (s : Option RegistryState) → same_state s s ≡ true
same_state_refl none = refl
same_state_refl (some s) = ground arith

pub same_digest_refl : (d : Option ℕ) → same_digest d d ≡ true
same_digest_refl none = refl
same_digest_refl (some d) = ground arith

pub same_bytes→eq : (xs bs : List ℕ) → same_bytes xs bs ≡ true → xs ≡ bs
same_bytes→eq [] [] h = refl
same_bytes→eq [] (b ∷ bs) h = cc
same_bytes→eq (a ∷ rest) [] h = cc
same_bytes→eq (a ∷ rest) (b ∷ bs) h =
    let head : (a == b) ≡ true = ground arith in
    let tail : same_bytes rest bs ≡ true = ground arith in
    ap₂ ◌∷◌ (==→eq a b head) (same_bytes→eq rest bs tail)

pub same_bytes_refl : (bytes : List ℕ) → same_bytes bytes bytes ≡ true
same_bytes_refl [] = refl
same_bytes_refl (b ∷ bytes) = ground (arith, same_bytes_refl bytes)

pub or_invalid_ok :
    (f e : RegistryEvent) (checked : Result EventRefusal (Unit {0}))
    → or_invalid f checked ≡ ok e
    → (checked ≡ ok tt) × (f ≡ e)
or_invalid_ok f e (ok tt) read = (refl, cc)
or_invalid_ok f e (err refusal) read = cc

pub validated_ok :
    (h : Hashing) (found : Option RegistryEvent) (e : RegistryEvent)
    → validated h found ≡ ok e
    → (found ≡ some e) × (check_event h e ≡ ok tt)
validated_ok h none e read = cc
validated_ok h (some f) e read =
    let accepted = or_invalid_ok f e (check_event h f) read in
    (ap some (accepted.1), ap (check_event h) (sym (accepted.1)) ∙ accepted.0)

pub raise_if_ok :
    (code : ArtifactFailureCode) (test : Bool) {done : Unit {0}}
    → raise_if test code ≡ ok done
    → test ≡ false
raise_if_ok code true passed = cc
raise_if_ok code false passed = refl

-- The first event of a history that was read, and the rest of it.
pub record Link (h : Hashing) (entry : RegistryEntry) (file : File) (files : List File)
    (sequence : ℕ) (previous : Option ℕ) (state : Option RegistryState)
    (events : List RegistryEvent) (after : Option RegistryState) : Type 0 where
  pub event : RegistryEvent
  pub later : List RegistryEvent
  pub decoded : h.decode file.payload ≡ some event
  pub accepted : check_event h event ≡ ok tt
  pub unbroken : breaks_chain h entry file event sequence previous state ≡ false
  pub read :
      load_events h entry files (sequence + 1) (some (h.sha256 file.payload)) (some event.to_state)
      ≡ ok (later, after)
  pub joined : events ≡ event ∷ later

pub load_events-Link :
    (h : Hashing) (entry : RegistryEntry) (file : File) (files : List File) (sequence : ℕ)
    (previous : Option ℕ) (state : Option RegistryState) (events : List RegistryEvent)
    (after : Option RegistryState)
    → load_events h entry (file ∷ files) sequence previous state ≡ ok (events, after)
    → Link h entry file files sequence previous state events after
unfolding load_events
load_events-Link h entry file files sequence previous state events after loaded =
    let first = bind_ok (validated h (h.decode file.payload)) _ loaded in
    let e = first.0 in
    let known = validated_ok h (h.decode file.payload) e (first.1) in
    let test = breaks_chain h entry file e sequence previous state in
    let second = bind_ok (raise_if test registry_transition_invalid) _ (first.2) in
    let third =
      bind_ok
        (load_events h entry files (sequence + 1) (some (h.sha256 file.payload)) (some e.to_state))
        _ (second.2) in
    record {
      event = e;
      later = third.0.0;
      decoded = known.0;
      accepted = known.1;
      unbroken = raise_if_ok registry_transition_invalid test (second.1);
      read = third.1 ∙ (let same : third.0.1 ≡ after = cc in ap (λ a. ok (third.0.0, a)) same);
      joined = cc;
    }

-- The tests of a file against the chain, all passed.
pub record Fits (h : Hashing) (entry : RegistryEntry) (file : File) (e : RegistryEvent)
    (sequence : ℕ) (previous : Option ℕ) (state : Option RegistryState) : Type 0 where
  pub canonical : same_bytes (h.encode e) file.payload ≡ true
  pub numbered : (e.sequence == sequence) ≡ true
  pub owned : (e.entry_id == entry.entry_id) ≡ true
  pub linked : same_digest e.previous_event_sha256 previous ≡ true
  pub continued : same_state e.from_state state ≡ true
  pub evidenced : (e.evidence.artifact_manifest_sha256 == entry.artifact_manifest_sha256) ≡ true
  pub named : (file.name == h.event_file_name e.sequence e.event_id) ≡ true

pub breaks_chain-Fits :
    (h : Hashing) (entry : RegistryEntry) (file : File) (e : RegistryEvent) (sequence : ℕ)
    (previous : Option ℕ) (state : Option RegistryState)
    → breaks_chain h entry file e sequence previous state ≡ false
    → Fits h entry file e sequence previous state
unfolding breaks_chain
breaks_chain-Fits h entry file e sequence previous state unbroken = record {
  canonical = ground arith;
  numbered = ground arith;
  owned = ground arith;
  linked = ground arith;
  continued = ground arith;
  evidenced = ground arith;
  named = ground arith;
}

pub Fits-unbroken :
    (h : Hashing) (entry : RegistryEntry) (file : File) (e : RegistryEvent) (sequence : ℕ)
    (previous : Option ℕ) (state : Option RegistryState)
    → Fits h entry file e sequence previous state
    → breaks_chain h entry file e sequence previous state ≡ false
unfolding breaks_chain
Fits-unbroken h entry file e sequence previous state fits =
    rw
      (
        fits.canonical, fits.numbered, fits.owned, fits.linked, fits.continued, fits.evidenced,
        fits.named,
      )
      refl
