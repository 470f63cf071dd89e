-- ===== src/Backend/Containerd/Service/Leaves.antt =====
-- The calls that leave the labels of the snapshots alone.
use container_image_csi_driv.Base.{◌≡◌, refl, ap, ◌∙◌, Bool, List, [], ◌∷◌}
use container_image_csi_driv.Text.{Text, Text-eq}
use container_image_csi_driv.Exec.{Outcome, ok, err, crash}
use container_image_csi_driv.Backend.Runtime.{Named}
use container_image_csi_driv.Backend.Runtime.Leaves.{Leaves, bind-Leaves}
use container_image_csi_driv.Backend.Containerd.Mounts.{
  Mount, Host, described, is_selinux_enforcing, mount_options, mount_each, mount_in_host_namespace,
}
use container_image_csi_driv.Backend.Containerd.Service.{
  Service, or_fatalf, mount_snapshot, get_image_id_or_die,
}
use container_image_csi_driv.Backend.Containerd.Service.Laws.{ServiceLaws, recorded}
use container_image_csi_driv.Backend.Containerd.Targets.{recorded_of}

module _ {S X : Type 0} (g : S → X) where
  mount_each-Leaves :
      (host : Host S) (enforcing : Bool) (v : Text) (mounts : List Mount) (target : Text)
      → ((source to fs_type : Text) (options : List Text)
          → Leaves g (host.syscall_mount source to fs_type options))
      → Leaves g (mount_each host enforcing v mounts target)
  unfolding mount_each
  mount_each-Leaves host enforcing v [] target h s = refl
  mount_each-Leaves host enforcing v (m ∷ mounts) target h s =
      let options = mount_options enforcing v m.options in
      bind-Leaves g (host.syscall_mount m.source target m.fs_type options)
        (λ _. mount_each host enforcing v mounts target) (h m.source target m.fs_type options)
        (λ _. mount_each-Leaves host enforcing v mounts target h) s

  described-Leaves :
      (host : Host S) (mounts : List Mount) (target : Text) (o : Outcome Text Unit) (s : S)
      → g (described host mounts target (o, s)).1 ≡ g s
  described-Leaves host mounts target (ok _) s = refl
  described-Leaves host mounts target (err e) s = refl
  described-Leaves host mounts target crash s = refl

module _ {service : Service} (laws : ServiceLaws service) where
  open service use {State, stat}
  open laws use {info}

  pub mount-Leaves :
      (key target j : Text) → Leaves (λ s. recorded laws s j) (mount_snapshot service key target)
  unfolding mount_snapshot mount_in_host_namespace
  mount-Leaves key target j =
      let g = λ (s : State). recorded laws s j in
      let in_host = λ (mounts : List Mount) (s : State).
        described service.host mounts target
          (mount_in_host_namespace service.host mounts target s) in
      bind-Leaves g (service.mounts key) in_host (λ s. ap recorded_of (laws.mounts_keeps key s j))
        (λ mounts s.
          let r = mount_in_host_namespace service.host mounts target s in
          described-Leaves g service.host mounts target r.0 r.1
          ∙ mount_each-Leaves g service.host (is_selinux_enforcing (service.host.enforce_file s))
              (service.host.context_variable s) mounts target
              (λ source to fs_type options s'.
                ap recorded_of (laws.syscall_mount_keeps source to fs_type options s' j))
              s)

  pub image-Leaves :
      (image : Named) (j : Text)
      → Leaves (λ s. recorded laws s j) (get_image_id_or_die service image)
  unfolding get_image_id_or_die
  image-Leaves image j =
      let g = λ (s : State). recorded laws s j in
      bind-Leaves g _ _ (λ s. ap recorded_of (laws.get_image_keeps image.string s j))
        (λ local_image.
          bind-Leaves g (or_fatalf (service.unpack local_image)) _
            (λ s. laws.unpack_keeps local_image s j)
            (λ _ s. ap recorded_of (laws.chain_id_keeps local_image s j)))
