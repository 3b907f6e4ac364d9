-- ===== src/ActiveModel/Loaded.antt =====
-- src/pl_platform/registry/active_model.py: the models that a lookup loads.
use ai_powered_premier_leagu.Prelude.{
  ℕ, ◌==◌, ◌≡◌, ◌↔◌, refl, sym, ap, ◌∙◌, Bool, true, false, not, Option, none, some, List, [], ◌∷◌,
  filter, Result, ok, err, bind_ok, ==→eq, arith, subst,
}
use ai_powered_premier_leagu.Registry.{RegistryEntry, Hashing}
use ai_powered_premier_leagu.Registry.Store.{same_bytes}
use ai_powered_premier_leagu.Registry.Chain.{same_bytes→eq, same_bytes_refl}
use ai_powered_premier_leagu.ActiveModel.{
  VerifiedRegistryEntry, LookupFailure, failed_at, checksum_mismatch, unsupported_model_component,
  artifact_missing,
}
use ai_powered_premier_leagu.ActiveModel.Chain.{
  LoadedModelArtifact, assert_supported_chain, reject_if,
}
use ai_powered_premier_leagu.ActiveModel.Support.{
  IsSupported, assert_supported_chain-IsSupported, IsSupported-passes,
}
use ai_powered_premier_leagu.ActiveModel.Lookup.{
  ArtifactRoot, ArtifactLoadFailure, artifact_refused, unreadable, classifier_refused,
  LoadedActiveModel, is_active, load_current_active_model, resolve, load_verified,
  verify_registry_artifact_link, loaded_artifact, readable,
}

-- An artifact that lies below the root, whose manifest has the digest that the registry recorded
-- before and after it is loaded, and that is supported.
pub record IsVerified (h : Hashing) (root : ArtifactRoot) (entry : RegistryEntry) (path : List ℕ)
    (a : LoadedModelArtifact) : Type 0 where
  pub manifest : List ℕ
  pub inside : root.escapes path ≡ false
  pub without_symlink : root.has_symlink path ≡ false
  pub is_file : root.is_file path ≡ true
  pub read_before : root.bytes_before path ≡ some manifest
  pub same_digest : h.sha256 manifest ≡ entry.artifact_manifest_sha256
  pub loaded : root.load_model_artifact path ≡ ok a
  pub read_after : root.bytes_after path ≡ some manifest
  pub supported : IsSupported entry a

reject_if-ok :
    (test : Bool) (raised : LookupFailure) {done : Unit {0}}
    → reject_if test (err raised) ≡ ok done
    → test ≡ false
reject_if-ok true raised passed = cc
reject_if-ok false raised passed = refl

readable-ok :
    (entry : RegistryEntry) (read : Option (List ℕ)) (bytes : List ℕ)
    → readable entry read ≡ ok bytes
    → read ≡ some bytes
readable-ok entry none bytes passed = cc
readable-ok entry (some found) bytes passed = cc

loaded_artifact-ok :
    (entry : RegistryEntry) (r : Result ArtifactLoadFailure LoadedModelArtifact)
    (a : LoadedModelArtifact)
    → loaded_artifact entry r ≡ ok a
    → r ≡ ok a
loaded_artifact-ok entry (ok b) a passed = let same : b ≡ a = cc in ap ok same
loaded_artifact-ok entry (err (artifact_refused code)) a passed = cc
loaded_artifact-ok entry (err unreadable) a passed = cc
loaded_artifact-ok entry (err classifier_refused) a passed = cc

module _ (h : Hashing) (root : ArtifactRoot) where
  -- What the link of a registry entry to its manifest went through.
  record Link (entry : RegistryEntry) (path bytes : List ℕ) : Type 0 where
    inside : root.escapes path ≡ false
    without_symlink : root.has_symlink path ≡ false
    is_file : root.is_file path ≡ true
    read_before : root.bytes_before path ≡ some bytes
    same_digest : h.sha256 bytes ≡ entry.artifact_manifest_sha256

  verify_registry_artifact_link-Link :
      (entry : RegistryEntry) (path bytes : List ℕ)
      → verify_registry_artifact_link h root entry path ≡ ok bytes
      → Link entry path bytes
  unfolding verify_registry_artifact_link
  verify_registry_artifact_link-Link entry path bytes got =
      let a =
        bind_ok (reject_if (root.escapes path) (failed_at unsupported_model_component entry)) _
          got in
      let b =
        bind_ok (reject_if (root.has_symlink path) (failed_at unsupported_model_component entry)) _
          (a.2) in
      let c =
        bind_ok (reject_if (not (root.is_file path)) (failed_at artifact_missing entry)) _ (b.2) in
      let d = bind_ok (readable entry (root.bytes_before path)) _ (c.2) in
      let e =
        bind_ok
          (reject_if (not (h.sha256 (d.0) == entry.artifact_manifest_sha256))
            (failed_at checksum_mismatch entry))
          _ (d.2) in
      let file : not (root.is_file path) ≡ false = reject_if-ok _ _ (c.1) in
      let digest : not (h.sha256 (d.0) == entry.artifact_manifest_sha256) ≡ false =
        reject_if-ok _ _ (e.1) in
      let same : d.0 ≡ bytes = cc in
      record {
        inside = reject_if-ok _ _ (a.1);
        without_symlink = reject_if-ok _ _ (b.1);
        is_file = ground arith;
        read_before = readable-ok entry (root.bytes_before path) (d.0) (d.1) ∙ ap some same;
        same_digest =
            ap h.sha256 (sym same)
            ∙ ==→eq (h.sha256 (d.0)) entry.artifact_manifest_sha256 (ground arith);
      }

  load_verified-IsVerified :
      (snapshot : VerifiedRegistryEntry) (entry : RegistryEntry) (path : List ℕ)
      (m : LoadedActiveModel)
      → load_verified h root snapshot entry path ≡ ok m
      → (snapshot ≡ m.registry) × IsVerified h root entry path m.artifact
  load_verified-IsVerified snapshot entry path m got =
      let a = bind_ok (verify_registry_artifact_link h root entry path) _ got in
      let b = bind_ok (loaded_artifact entry (root.load_model_artifact path)) _ (a.2) in
      let c = bind_ok (readable entry (root.bytes_after path)) _ (b.2) in
      let d =
        bind_ok (reject_if (not (same_bytes (c.0) (a.0))) (failed_at checksum_mismatch entry)) _
          (c.2) in
      let e = bind_ok (assert_supported_chain entry (b.0)) _ (d.2) in
      let whole : record { registry = snapshot; artifact = b.0 } ≡ m = cc in
      let link = verify_registry_artifact_link-Link entry path (a.0) (a.1) in
      let unchanged : not (same_bytes (c.0) (a.0)) ≡ false = reject_if-ok _ _ (d.1) in
      let bytes = same_bytes→eq (c.0) (a.0) (ground arith) in
      (
        ap (λ (l : LoadedActiveModel). l.registry) whole,
        subst (λ (l : LoadedActiveModel). IsVerified h root entry path l.artifact) whole
            (record {
              manifest = a.0;
              inside = link.inside;
              without_symlink = link.without_symlink;
              is_file = link.is_file;
              read_before = link.read_before;
              same_digest = link.same_digest;
              loaded = loaded_artifact-ok entry (root.load_model_artifact path) (b.0) (b.1);
              read_after = readable-ok entry (root.bytes_after path) (c.0) (c.1) ∙ ap some bytes;
              supported = assert_supported_chain-IsSupported entry (b.0) (e.1);
            }),
      )

  IsVerified-loads :
      (snapshot : VerifiedRegistryEntry) (entry : RegistryEntry) (path : List ℕ)
      (a : LoadedModelArtifact)
      → IsVerified h root entry path a
      → load_verified h root snapshot entry path ≡ ok (record { registry = snapshot; artifact = a })
  unfolding verify_registry_artifact_link
  IsVerified-loads snapshot entry path a v =
      let digest : (h.sha256 v.manifest == entry.artifact_manifest_sha256) ≡ true =
        ap (λ n. n == entry.artifact_manifest_sha256) v.same_digest ∙ ground arith in
      rw
        (
          v.inside,
          v.without_symlink,
          v.is_file,
          v.read_before,
          digest,
          v.loaded,
          v.read_after,
          same_bytes_refl v.manifest,
          IsSupported-passes entry a v.supported,
        )
        refl

  resolves_one :
      (actives : List VerifiedRegistryEntry) (m : LoadedActiveModel)
      → resolve h root actives ≡ ok m
      → (actives ≡ m.registry ∷ [])
        × IsVerified h root m.registry.entry m.registry.entry.artifact_manifest_relative_path
            m.artifact
  resolves_one [] m got = cc
  resolves_one (snapshot ∷ another ∷ more) m got = cc
  resolves_one (snapshot ∷ []) m got =
      let run =
        load_verified-IsVerified snapshot snapshot.entry
          snapshot.entry.artifact_manifest_relative_path m got in
      (
        ap (λ s. s ∷ []) (run.0),
        subst
            (λ (s : VerifiedRegistryEntry).
              IsVerified h root s.entry s.entry.artifact_manifest_relative_path m.artifact)
            (run.0) (run.1),
      )

-- A lookup loads a model exactly if one of the verified histories ends in the active state, only
-- that one, and the artifact is verified for its entry: below the root and no link, with a manifest
-- of the recorded digest both before and after loading, and of the one supported kind.
pub load_current_active_model_iff :
    (h : Hashing) (root : ArtifactRoot) (snapshots : List VerifiedRegistryEntry)
    (m : LoadedActiveModel)
    → let entry = m.registry.entry in
      (load_current_active_model h root (ok snapshots) ≡ ok m) ↔ (
        (filter is_active snapshots ≡ m.registry ∷ [])
        × IsVerified h root entry entry.artifact_manifest_relative_path m.artifact)
unfolding load_current_active_model
load_current_active_model_iff h root snapshots m = (
  λ got. resolves_one h root (filter is_active snapshots) m got,
  λ (one, verified).
      ap (resolve h root) one
      ∙ IsVerified-loads h root m.registry m.registry.entry
          m.registry.entry.artifact_manifest_relative_path m.artifact verified,
)
