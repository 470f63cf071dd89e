-- ===== src/Backend/Mounter/Interleaving.antt =====
-- Requests of several volumes at once: `guard` makes each reference and each release one step, and
-- the calls of the runtime that keep its read-only snapshots may come in between.
use container_image_csi_driv.Base.{◌≡◌, subst, Bool, true, false, is_empty, sym, []}
use container_image_csi_driv.Text.{Text}
use container_image_csi_driv.Exec.{Outcome, ok, err, crash}
use container_image_csi_driv.Backend.Metadata.{create_snapshot_metadata}
use container_image_csi_driv.Backend.Runtime.{ContainerRuntimeMounter, RuntimeLaws}
use container_image_csi_driv.Backend.Mounter.{SnapshotMounter, ref_ro_snapshot, unref_ro_snapshot}
use container_image_csi_driv.Backend.Mounter.Contract.{
  Ends, Ends-map, Referred, Unchanged, Unreferred, ref-Ends, unref-Ends,
}
use container_image_csi_driv.Backend.Mounter.Invariant.{
  Inv, Inv-Fresh, Unchanged-Inv, Referred-Inv, Released-Inv,
}
use container_image_csi_driv.Backend.Mounter.Rollback.{SameRecords, Inv-runtime}

-- The process lives on.
abbrev pub Lives : {E A : Type 0} → Outcome E A → Type 0
Lives (ok a) = Unit
Lives (err e) = Unit
Lives crash = ⊥

module _ {rt : ContainerRuntimeMounter} (laws : RuntimeLaws rt) where
  pub data Step (s s' : SnapshotMounter rt.State) : Type 0 where
    refers :
        (target image_id key : Text) (o : Outcome rt.Error Unit)
        → is_empty key ≡ false
        → ref_ro_snapshot rt target image_id key (create_snapshot_metadata target) s ≡ (o, s')
        → Lives o
        → Step s s'
    unrefers :
        (target : Text) (o : Outcome rt.Error Bool)
        → unref_ro_snapshot rt target s ≡ (o, s')
        → Lives o
        → Step s s'
    works :
        (r : rt.State) → SameRecords laws s.runtime r → s' ≡ record s { runtime = r } → Step s s'

  pub data Reach (s : SnapshotMounter rt.State) : SnapshotMounter rt.State → Type 0 where
    here : Reach s s
    next : {t u : SnapshotMounter rt.State} → Reach s t → Step t u → Reach s u

  lives-Inv :
      {A : Type 0} (o : Outcome rt.Error A) (s : SnapshotMounter rt.State)
      → Lives o
      → Ends (λ _. Inv laws) (λ _. Inv laws) (o, s)
      → Inv laws s
  lives-Inv (ok a) s l i = i
  lives-Inv (err e) s l i = i
  lives-Inv crash s l i = absurd l

  pub ref-Inv :
      (target image_id key : Text) (s : SnapshotMounter rt.State)
      → is_empty key ≡ false
      → Inv laws s
      → Ends
          (λ _. Inv laws)
          (λ _. Inv laws)
          (ref_ro_snapshot rt target image_id key (create_snapshot_metadata target) s)
  ref-Inv target image_id key s named i =
      Ends-map {P = λ _. Referred laws target key s} {Q = λ _. Unchanged laws s} _
        (λ _ s' f. Referred-Inv laws target key s s' named i f)
        (λ _ s' c. Unchanged-Inv laws s s' c i)
        (ref-Ends laws target image_id key s (Inv-Fresh laws key s i))

  Unreferred-Inv :
      (target : Text) (found : Bool) (s s' : SnapshotMounter rt.State)
      → Inv laws s
      → Unreferred laws target s found s'
      → Inv laws s'
  Unreferred-Inv target true s s' i r = Released-Inv laws target s s' i r
  Unreferred-Inv target false s s' i (_, c) = Unchanged-Inv laws s s' c i

  pub unref-Inv :
      (target : Text) (s : SnapshotMounter rt.State)
      → Inv laws s
      → Ends (λ _. Inv laws) (λ _. Inv laws) (unref_ro_snapshot rt target s)
  unref-Inv target s i =
      Ends-map {P = Unreferred laws target s} {Q = λ _ _. ⊥} _
        (λ found s' u. Unreferred-Inv target found s s' i u) (λ _ _ e. absurd e)
        (unref-Ends laws target s)

  pub Step-Inv : {s s' : SnapshotMounter rt.State} → Step s s' → Inv laws s → Inv laws s'
  Step-Inv {s} {s'} (refers target image_id key o named e l) i =
      lives-Inv o s' l (rw e at (ref-Inv target image_id key s named i))
  Step-Inv {s} {s'} (unrefers target o e l) i = lives-Inv o s' l (rw e at (unref-Inv target s i))
  Step-Inv {s} {s'} (works r same e) i =
      subst (Inv laws) (sym e) (Inv-runtime laws [] [] s s r same i)

  -- Over a runtime that meets the laws that the mounter relies on: whatever the order of the steps
  -- of mounts and unmounts, the two maps of the cache and the runtime's metadata stay consistent
  -- with each other.
  pub Reach-Inv : {s s' : SnapshotMounter rt.State} → Inv laws s → Reach s s' → Inv laws s'
  Reach-Inv i here = i
  Reach-Inv i (next r st) = Step-Inv st (Reach-Inv i r)
