-- ===== src/Csi/Node/Unmounts.antt =====
-- The mounter's cache when a volume is unpublished.
use container_image_csi_driv.Base.{
  ◌≡◌, refl, true, false, Option, ◌⊎◌, inl, inr, is_empty, Bool-cases, sym, subst,
}
use container_image_csi_driv.Text.{Text, Text-eq}
use container_image_csi_driv.Exec.{Outcome, ok, err, crash}
use container_image_csi_driv.Backend.Runtime.{Named, ContainerRuntimeMounter, RuntimeLaws}
use container_image_csi_driv.Backend.Mounter.{SnapshotMounter, unmount}
use container_image_csi_driv.Backend.Mounter.Contract.{Ends}
use container_image_csi_driv.Backend.Mounter.Invariant.{Inv}
use container_image_csi_driv.Backend.Mounter.Unmounting.{
  IsSeparate, Untouched, Unmounted, unmount-Ends,
}
use container_image_csi_driv.RemoteImage.{ImageService}
use container_image_csi_driv.Csi.Requests.{Status, invalid_argument}
use container_image_csi_driv.Csi.Node.{
  PathCheck, answer, not_exist, check_failed, FileSystem, NodeServer, node_unpublish_volume,
  unmount_at, unmounted, rejected, volume_id_missing, target_path_missing,
}

module _ {rt : ContainerRuntimeMounter} (laws : RuntimeLaws rt) (svc : ImageService)
    (parse_docker_ref : Text → Option Named) (fs : FileSystem rt.State) (volume_id target : Text)
    (n : NodeServer rt svc) (i : Inv laws n.mounter) where
  abbrev pub check : PathCheck
  check = fs.is_mount_point target n.mounter.runtime

  -- The target is no mount point, or not there.
  abbrev pub Absent : PathCheck → Type 0
  Absent c = (c ≡ answer false) ⊎ (c ≡ not_exist)

  -- At a mount point the target was unmounted and its snapshot has lost this one reference; elsewhere
  -- nothing changed.
  abbrev pub Unpublished : PathCheck → NodeServer rt svc → Type 0
  Unpublished c n' =
      ((c ≡ answer true) × Unmounted laws target n.mounter n'.mounter × Inv laws n'.mounter)
      ⊎ (Absent c × (n' ≡ n))

  -- Why an unpublishing returns an error.
  abbrev pub Refused : PathCheck → Type 0
  Refused c =
      (is_empty volume_id ≡ true)
      ⊎ ((is_empty target ≡ true)
          ⊎ ((c ≡ check_failed)
              ⊎ ((c ≡ answer true)
                  × ((e : rt.Error) × ((unmount rt volume_id target n.mounter).0 ≡ err e)))))

  abbrev pub Answers : PathCheck → Outcome Status Unit × NodeServer rt svc → Type 0
  Answers c (ok _, n') = Unpublished c n'
  Answers c (err _, n') = Refused c × Untouched laws n.mounter n'.mounter
  Answers c (crash, n') = (c ≡ answer true) × ((unmount rt volume_id target n.mounter).0 ≡ crash)

  unchanged : Untouched laws n.mounter n.mounter
  unchanged = (record { keys = refl; sets = refl }, i)

  unmounted-Answers :
      (r : Outcome rt.Error Unit × SnapshotMounter rt.State)
      → (unmount rt volume_id target n.mounter).0 ≡ r.0
      → Ends
          (λ _ m. Unmounted laws target n.mounter m × Inv laws m)
          (λ _. Untouched laws n.mounter)
          r
      → Answers (answer true) (unmounted rt svc parse_docker_ref fs r n)
  unmounted-Answers (ok _, m) same h = inl (refl, h.0, h.1)
  unmounted-Answers (err e, m) same h = (inr (inr (inr (refl, (e, same)))), h)
  unmounted-Answers (crash, m) same h = (refl, same)

  unmount_at-Answers :
      (c : PathCheck)
      → IsSeparate volume_id target n.mounter
      → Answers c (unmount_at rt svc parse_docker_ref fs volume_id target c n)
  unfolding unmount_at
  unmount_at-Answers (answer true) outside =
      unmounted-Answers (unmount rt volume_id target n.mounter) refl
        (unmount-Ends laws volume_id target n.mounter i outside)
  unmount_at-Answers (answer false) outside = inr (inl refl, refl)
  unmount_at-Answers not_exist outside = inr (inr refl, refl)
  unmount_at-Answers check_failed outside = (inr (inr (inl refl)), unchanged)

  -- Unpublishing a volume from a target that is a mount point succeeds only with the target unmounted
  -- and its one reference dropped; where the target is no mount point or not there, it succeeds and
  -- changes nothing. It returns an error only without a volume id or a target, where the check of the
  -- target fails, or where the target is a mount point and `Unmount` returns one; the mounter's cache
  -- is then as it was. It ends the process only where `Unmount` does. The key of the volume's own
  -- snapshot must not be one of the cache's, where the target has no snapshot.
  pub node_unpublish_volume-Ends :
      IsSeparate volume_id target n.mounter
      → Answers check (node_unpublish_volume rt svc parse_docker_ref fs volume_id target n)
  unfolding node_unpublish_volume
  node_unpublish_volume-Ends outside = elim (Bool-cases (is_empty volume_id)) [
    | inl e ↦
        of_outcome (rejected invalid_argument volume_id_missing, n)
          (rw (node_unpublish_volume, e) refl) (inl e, unchanged)
    | inr named ↦ elim (Bool-cases (is_empty target)) [
      | inl e ↦
          of_outcome (rejected invalid_argument target_path_missing, n)
            (rw (node_unpublish_volume, named, e) refl) (inr (inl e), unchanged)
      | inr given ↦
          of_outcome (unmount_at rt svc parse_docker_ref fs volume_id target check n)
            (rw (node_unpublish_volume, named, given) refl) (unmount_at-Answers check outside)
    ]
  ]
    where
      of_outcome :
          {r : Outcome Status Unit × NodeServer rt svc}
          (r' : Outcome Status Unit × NodeServer rt svc)
          → r ≡ r'
          → Answers check r'
          → Answers check r
      of_outcome r' same h = subst (Answers check) (sym same) h
