-- ===== src/Backend/Mounter/Restart/Rebuilt.antt =====
-- The cache that the driver starts with.
use container_image_csi_driv.Base.{
  ◌≡◌, ◌≢◌, refl, sym, ap, ◌∙◌, Bool, false, some-injective, Bool-cases, List, [], ◌∷◌, some, inl,
  inr, arith, nat_eq, All, Option-cases,
}
use container_image_csi_driv.Text.{Text, Text-eq, text_eq, text_eq_iff, ne_of_text_eq}
use container_image_csi_driv.Dict.{get, has}
use container_image_csi_driv.Exec.{Outcome, ok, err, crash, continue}
use container_image_csi_driv.Backend.Metadata.{
  TargetSet, SnapshotMetadata, get_snapshot_key, get_targets,
}
use container_image_csi_driv.Backend.Runtime.{ContainerRuntimeMounter, RuntimeLaws}
use container_image_csi_driv.Backend.Mounter.{SnapshotMounter, die_on_err}
use container_image_csi_driv.Backend.Mounter.Contract.{Ends}
use container_image_csi_driv.Backend.Mounter.Invariant.{Inv}
use container_image_csi_driv.Backend.Mounter.Restart.{
  load_snapshot, load_metadata, load_all, build_snapshot_cache_or_die,
}
use container_image_csi_driv.Backend.Mounter.Restart.Loading.{
  Loaded, Listed, Owned, Elsewhere, Gone, After, load_snapshot-Ends,
}

abbrev pub empty_cache : {S : Type 0} → S → SnapshotMounter S
empty_cache r = record { runtime = r; target_ro_snapshot_map = []; ro_snapshot_targets_map = [] }

module _ {rt : ContainerRuntimeMounter} (laws : RuntimeLaws rt) (mounted : Text → Bool)
    (owner : Text → Text) where
  open laws use {recorded}

  -- The metadata in the list is what the runtime has recorded, and the mount points agree with it.
  abbrev pub AllListed : SnapshotMounter rt.State → List SnapshotMetadata → Type 0
  AllListed s = All (λ m.
      (k : Text) (ts : TargetSet)
      → get_snapshot_key m ≡ some k
      → get_targets m ≡ some ts
      → Listed laws mounted owner s k ts)

  -- No two snapshots of the list have the same key.
  abbrev pub Apart : List SnapshotMetadata → Type 0
  Apart [] = Unit
  Apart (m ∷ snapshots) =
      All (λ m'. (k : Text) → get_snapshot_key m ≡ some k → get_snapshot_key m' ≢ some k) snapshots
      × Apart snapshots

  -- A snapshot that is neither in the cache nor in the list has no target.
  abbrev pub Rest : List SnapshotMetadata → SnapshotMounter rt.State → Type 0
  Rest snapshots s =
      (j u : Text)
      → has j s.ro_snapshot_targets_map ≡ false
      → All (λ m. get_snapshot_key m ≢ some j) snapshots
      → recorded s.runtime j u ≡ false

  later-Rest :
      (k : Text) (m : SnapshotMetadata) (s s' : SnapshotMounter rt.State)
      (snapshots : List SnapshotMetadata)
      → get_snapshot_key m ≡ some k
      → Elsewhere laws mounted owner k s s'
      → Gone laws mounted owner k s s'
      → Rest (m ∷ snapshots) s
      → Rest snapshots s'
  later-Rest k m s s' snapshots key e gone rest j u h others = elim (Bool-cases (text_eq k j)) [
    | inl same ↦ (gone j u h).0 same
    | inr apart ↦
        e j u (λ x. ground (arith, x, apart, text_eq_iff k j))
        ∙ rest j u ((gone j u h).1 apart)
            (λ x. ne_of_text_eq k j apart (some-injective k j (sym key ∙ x)), others)
  ]

  later-AllListed :
      (k : Text) (m : SnapshotMetadata) (s s' : SnapshotMounter rt.State)
      (snapshots : List SnapshotMetadata)
      → get_snapshot_key m ≡ some k
      → Elsewhere laws mounted owner k s s'
      → All
          (λ m'. (j : Text) → get_snapshot_key m ≡ some j → get_snapshot_key m' ≢ some j)
          snapshots
      → AllListed s snapshots
      → AllListed s' snapshots
  later-AllListed k m s s' [] key e apart l = tt
  later-AllListed k m s s' (m' ∷ snapshots) key e apart l = (
    λ j ts found targets.
        let old = l.0 j ts found targets in
        record {
          once = old.once;
          recorded_as =
              λ u. e j u (λ same. apart.0 k key (found ∙ ap some same)) ∙ old.recorded_as u;
          owned = old.owned;
        },
    later-AllListed k m s s' snapshots key e apart.1 l.1,
  )

  -- A well-formed cache that gives each of its targets the snapshot that is mounted there.
  abbrev pub Rebuilt : SnapshotMounter rt.State → Type 0
  Rebuilt s = Inv laws s × Owned laws mounted owner s

  all-Rebuilt : (s : SnapshotMounter rt.State) → Loaded laws mounted owner s → Rest [] s → Rebuilt s
  all-Rebuilt s (c, o) rest = (
    record {
      linked = c.linked;
      distinct = c.distinct;
      occupied = c.occupied;
      keyed = c.keyed;
      synced = c.synced;
      fresh = λ k u h. rest k u h tt;
    },
    o,
  )

  rest-Ends :
      (o : Outcome rt.Error Unit × SnapshotMounter rt.State) (k : Text)
      (s : SnapshotMounter rt.State)
      (next : SnapshotMounter rt.State → Outcome rt.Error Unit × SnapshotMounter rt.State)
      → Ends (λ _. After laws mounted owner k s) (λ _ _. ⊥) o
      → ((s' : SnapshotMounter rt.State)
          → After laws mounted owner k s s'
          → Ends (λ _. Rebuilt) (λ _ _. ⊥) (next s'))
      → Ends (λ _. Rebuilt) (λ _ _. ⊥) (continue o.0 o.1 (λ _. next))
  rest-Ends (ok _, s') k s next h n = n s' h
  rest-Ends (err e, s') k s next h n = h
  rest-Ends (crash, s') k s next h n = tt

  load_all-Ends :
      (snapshots : List SnapshotMetadata) (s : SnapshotMounter rt.State)
      → Loaded laws mounted owner s
      → Apart snapshots
      → AllListed s snapshots
      → Rest snapshots s
      → Ends (λ _. Rebuilt) (λ _ _. ⊥) (load_all rt mounted snapshots s)
  unfolding load_all load_metadata
  load_all-Ends [] s i a l rest = all-Rebuilt s i rest
  load_all-Ends (m ∷ snapshots) s i a l rest = elim (Option-cases (get_snapshot_key m)) [
    | inl e ↦ rw e tt
    | inr (k, e) ↦ rw e (
        rest-Ends (load_snapshot rt mounted k (get_targets m) s) k s (load_all rt mounted snapshots)
          (load_snapshot-Ends laws mounted owner k (get_targets m) s i (λ ts. l.0 k ts e))
          (λ s' h.
            load_all-Ends snapshots s' h.0 a.1 (later-AllListed k m s s' snapshots e h.1 a.0 l.1)
              (later-Rest k m s s' snapshots e h.1 h.2 rest)))
  ]

  empty-Loaded : (r : rt.State) → Loaded laws mounted owner (empty_cache r)
  unfolding get text_eq
  empty-Loaded r = (
    record {
      linked = λ t k h. ground (arith, text_eq_iff [] k);
      distinct = λ k. tt;
      occupied = λ k h. ground arith;
      keyed = refl;
      synced = λ k u h. ground arith;
    },
    λ t h. ground arith,
  )

  listed-Ends :
      (o : Outcome rt.Error (List SnapshotMetadata) × rt.State)
      → ((snapshots : List SnapshotMetadata) (r : rt.State)
          → o ≡ (ok snapshots, r)
          → Apart snapshots × AllListed (empty_cache r) snapshots × Rest snapshots (empty_cache r))
      → Ends
          (λ _. Rebuilt)
          (λ _ _. ⊥)
          (continue (die_on_err o.0) (empty_cache o.1) (load_all rt mounted))
  listed-Ends (ok snapshots, r) h =
      load_all-Ends snapshots (empty_cache r) (empty-Loaded r) (h snapshots r refl).0
        (h snapshots r refl).1 (h snapshots r refl).2
  listed-Ends (err e, r) h = tt
  listed-Ends (crash, r) h = tt

  -- Over a runtime that meets the laws that the mounter relies on, whose list of snapshots names
  -- each key once, gives the metadata that the runtime has recorded, leaves out no snapshot with
  -- targets, and has at every mount point among the targets the snapshot that is mounted there:
  -- when the driver starts, it ends or it has a well-formed cache that gives each of its targets
  -- the snapshot mounted there.
  pub build_snapshot_cache-Rebuilt :
      (r : rt.State)
      → ((snapshots : List SnapshotMetadata) (r' : rt.State)
          → rt.list_snapshots r ≡ (ok snapshots, r')
          → Apart snapshots
            × AllListed (empty_cache r') snapshots
            × Rest snapshots (empty_cache r'))
      → Ends (λ _. Rebuilt) (λ _ _. ⊥) (build_snapshot_cache_or_die rt mounted (empty_cache r))
  unfolding build_snapshot_cache_or_die
  build_snapshot_cache-Rebuilt r h = listed-Ends (rt.list_snapshots r) h
