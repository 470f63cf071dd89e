-- ===== src/Backend/Containerd/Service/Laws.antt =====
-- What the driver relies on of containerd, and how it shows in the targets that the labels name.
use container_image_csi_driv.Base.{
  All, true, is_some, ◌≢◌, ◌∷◌, ◌≡◌, ap, Bool, List, [], Option, none, some, arith, ◌==◌,
  if◌then◌else◌,
}
use container_image_csi_driv.Text.{Text, Text-eq}
use container_image_csi_driv.Dict.{has}
use container_image_csi_driv.Exec.{Outcome, ok}
use container_image_csi_driv.Backend.Metadata.{TargetSet, SnapshotMetadata, get_targets, named_by}
use container_image_csi_driv.Backend.Runtime.{Settles}
use container_image_csi_driv.Backend.Runtime.Leaves.{Settles-map}
use container_image_csi_driv.Backend.Containerd.{Labels, view, active, Info}
use container_image_csi_driv.Backend.Containerd.Service.{Service}
use container_image_csi_driv.Backend.Containerd.Targets.{recorded_of}

abbrev pub NamesApart : List Info → Type 0
NamesApart [] = Unit
NamesApart (i ∷ infos) = All (λ i'. i'.name ≢ i.name) infos × NamesApart infos

-- What the interfaces of the snapshotter and of the client promise. `info` is the snapshotter's
-- table; images are unpacked into snapshots of their own, without labels of the driver.
pub record ServiceLaws (service : Service) : Type 0 where
  pub info : service.State → Text → Option Info
  pub stat_law :
      (k : Text) (s : service.State) (i : Info)
      → (service.stat k s).0 ≡ ok i
      → (info s k ≡ some i) × (i.name ≡ k)
  pub stat_keeps :
      (k : Text) (s : service.State) (j : Text) → info (service.stat k s).1 j ≡ info s j
  pub view_law :
      (k p : Text) (l : Labels) (s : service.State) (j : Text)
      → let r = service.view_snapshot k p l s in
        Settles r.0
          (info r.1 j)
          (if k == j
            then some (record { name = k; kind = view; parent = p; labels = l })
            else info s j)
          (info s j)
  pub prepare_law :
      (k p : Text) (l : Labels) (s : service.State) (j : Text)
      → let r = service.prepare_snapshot k p l s in
        Settles r.0
          (info r.1 j)
          (if k == j
            then some (record { name = k; kind = active; parent = p; labels = l })
            else info s j)
          (info s j)
  -- A key is not taken twice.
  pub prepare_free :
      (k p : Text) (l : Labels) (s : service.State)
      → (service.prepare_snapshot k p l s).0 ≡ ok tt
      → info s k ≡ none
  pub update_law :
      (i : Info) (s : service.State) (j : Text)
      → let r = service.update i s in
        Settles r.0 (info r.1 j) (if i.name == j then some i else info s j) (info s j)
  pub remove_law :
      (k : Text) (s : service.State) (j : Text)
      → let r = service.remove k s in
        Settles r.0 (info r.1 j) (if k == j then none else info s j) (info s j)
  -- What is not there cannot be removed.
  pub remove_known :
      (k : Text) (s : service.State) → (service.remove k s).0 ≡ ok tt → is_some (info s k) ≡ true
  pub walk_keeps : (s : service.State) (j : Text) → info (service.walk s).1 j ≡ info s j
  -- Walk visits every snapshot, and none twice.
  pub walk_law :
      (s : service.State) (infos : List Info)
      → (service.walk s).0 ≡ ok infos
      → All (λ i. info s i.name ≡ some i) infos
        × NamesApart infos
        × ((k : Text) → All (λ i. i.name ≢ k) infos → info s k ≡ none)
  pub mounts_keeps :
      (k : Text) (s : service.State) (j : Text) → info (service.mounts k s).1 j ≡ info s j
  pub get_image_keeps :
      (i : Text) (s : service.State) (j : Text) → info (service.get_image i s).1 j ≡ info s j
  pub chain_id_keeps :
      (i : service.Image) (s : service.State) (j : Text)
      → info (service.chain_id i s).1 j ≡ info s j
  pub unpack_keeps :
      (i : service.Image) (s : service.State) (j : Text)
      → recorded_of (info (service.unpack i s).1 j) ≡ recorded_of (info s j)
  pub syscall_mount_keeps :
      (source target fs_type : Text) (options : List Text) (s : service.State) (j : Text)
      → info (service.host.syscall_mount source target fs_type options s).1 j ≡ info s j
  pub umount_keeps :
      (target : Text) (s : service.State) (j : Text)
      → info (service.host.umount target s).1 j ≡ info s j

module _ {service : Service} (laws : ServiceLaws service) where
  open service use {State, stat}
  open laws use {info}

  -- The targets that the labels of snapshot `j` name.
  abbrev pub recorded : State → Text → Text → Bool
  recorded s j = recorded_of (info s j)

  -- What a call did to the table, as it shows in the targets.
  pub put-Settles :
      (o : Outcome Text Unit) (r s' s : State) (k : Text) (i : Option Info) (set : Text → Bool)
      (j : Text)
      → recorded_of i ≡ set
      → info s' j ≡ info s j
      → Settles o (info r j) (if k == j then i else info s' j) (info s' j)
      → Settles o (recorded r j) (if k == j then set else recorded s j) (recorded s j)
  put-Settles o r s' s k i set j e keeps =
      Settles-map o recorded_of (info r j) (if k == j then i else info s' j) (info s' j)
        (ground (arith, e, ap recorded_of keeps)) (ap recorded_of keeps)

  pub named_by-some :
      (m : SnapshotMetadata) (ts : TargetSet) (u : Text)
      → get_targets m ≡ some ts
      → named_by m u ≡ has u ts
  named_by-some m ts u e = ap (λ o. has u (elim o [ none ↦ [] | some found ↦ found ])) e
