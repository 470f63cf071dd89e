-- ===== src/Install/Setup/Mounted.antt =====
-- What an installation that gives manifests mounts into the driver's pods.
use container_image_csi_driv.Base.{
  ◌≡◌, ◌⊎◌, refl, sym, subst, append-nil, ap, ◌∙◌, Bool, true, false, ◌||◌, List, [], ◌∷◌, ◌++◌,
  is_empty, All, Bool-cases, inl, inr,
}
use container_image_csi_driv.Text.{Text, text_eq}
use container_image_csi_driv.Exec.{ok, ok-injective, Outcome-cases}
use container_image_csi_driv.Install.{Volume, runtime_volumes}
use container_image_csi_driv.Install.Cri.{Sockets}
use container_image_csi_driv.Install.Kubelet.{
  ContainerRuntime, containerd, cri_o, DriverConfig, NodeHost, detect_kubelet_process,
}
use container_image_csi_driv.Install.Setup.{
  VolumeMount, volume_mounts, Setup, Output, manifests, InstallFlags, image_part, crio_part,
  all_volumes, output, configured, install,
}
use container_image_csi_driv.Install.Setup.Beside.{mounted}

-- Some volume has this path.
abbrev pub stands_at : List Volume → Text → Bool
stands_at [] path = false
stands_at (v ∷ vols) path = text_eq v.path path || stands_at vols path

-- The mounts for the volumes that were detected.
pub record Mounts (vols : List Volume) (mounts : List VolumeMount) : Type 0 where
  pub complete : All (λ (v : Volume). mounted mounts v.path ≡ true) vols
  pub known : All (λ (m : VolumeMount). stands_at vols m.mount_path ≡ true) mounts

abbrev pub part_of : ContainerRuntime → List Volume → List Volume
part_of containerd vols = []
part_of cri_o vols = vols

Runtime-cases : (r : ContainerRuntime) → (r ≡ containerd) ⊎ (r ≡ cri_o)
Runtime-cases containerd = inl refl
Runtime-cases cri_o = inr refl

same_setup : {a b : Setup} → ◌≡◌ {A = Output} (manifests a) (manifests b) → a ≡ b
same_setup h = cc

module _ (host : NodeHost) (sockets : Sockets) where
  -- All that the image service and, on CRI-O, the configuration of the daemon name.
  unfoldable pub named_volumes : DriverConfig → List Volume
  named_volumes c = image_part host sockets c ++ part_of c.runtime (crio_part host sockets c)

  record Found (c : DriverConfig) (vols : List Volume) : Type 0 where
    images : is_empty (image_part host sockets c) ≡ false
    crio : (c.runtime ≡ containerd) ⊎ (is_empty (crio_part host sockets c) ≡ false)
    whole : vols ≡ named_volumes c

  all_volumes-Found :
      (c : DriverConfig) (vols : List Volume) → all_volumes host sockets c ≡ ok vols → Found c vols
  unfolding all_volumes named_volumes
  all_volumes-Found c vols h = elim (Bool-cases (is_empty (image_part host sockets c))) [
    | inl bare ↦ absurd (cc (rw (bare, all_volumes) at h))
    | inr images ↦ elim (Runtime-cases c.runtime) [
      | inl e ↦ record {
        images = images;
        crio = inl e;
        whole =
            sym (ok-injective (rw (images, e, all_volumes) at h))
            ∙ rw (e, append-nil (image_part host sockets c)) refl;
      }
      | inr e ↦ elim (Bool-cases (is_empty (crio_part host sockets c))) [
        | inl bare ↦ absurd (cc (rw (images, e, bare, all_volumes) at h))
        | inr filled ↦ record {
          images = images;
          crio = inr filled;
          whole = sym (ok-injective (rw (images, e, filled, all_volumes) at h)) ∙ rw e refl;
        }
      ]
    ]
  ]

  -- What was detected and chosen for manifests.
  pub record Selected (s : Setup) : Type 0 where
    pub detected : detect_kubelet_process host ≡ ok s.config
    pub images : is_empty (image_part host sockets s.config) ≡ false
    pub crio :
        (s.config.runtime ≡ containerd) ⊎ (is_empty (crio_part host sockets s.config) ≡ false)
    pub chosen : s.volumes ≡ runtime_volumes (named_volumes s.config)
    pub given : s.mounts ≡ volume_mounts (runtime_volumes (named_volumes s.config))

  -- What stands behind manifests.
  pub record Provided (s : Setup) : Type 0 where
    pub detected : detect_kubelet_process host ≡ ok s.config
    pub images : is_empty (image_part host sockets s.config) ≡ false
    pub crio :
        (s.config.runtime ≡ containerd) ⊎ (is_empty (crio_part host sockets s.config) ≡ false)
    pub mounts : Mounts (named_volumes s.config) s.mounts
    pub chosen : s.volumes ≡ runtime_volumes (named_volumes s.config)

  module _ (flags : InstallFlags) (s : Setup) where
    output-Selected :
        (c : DriverConfig) (vols : List Volume)
        → detect_kubelet_process host ≡ ok c
        → Found c vols
        → output host sockets flags c (runtime_volumes vols) ≡ manifests s
        → Selected s
    unfolding output
    output-Selected c vols d f h = elim (Bool-cases flags.print_detected_instead) [
      | inl shown ↦ absurd (cc (rw (shown, output) at h))
      | inr printed ↦ subst Selected (same_setup (rw (printed, output) at h)) record {
        detected = d;
        images = f.images;
        crio = f.crio;
        chosen = ap runtime_volumes f.whole;
        given = ap (λ l. volume_mounts (runtime_volumes l)) f.whole;
      }
    ]

    configured-Selected :
        (c : DriverConfig)
        → detect_kubelet_process host ≡ ok c
        → configured host sockets flags c ≡ ok (manifests s)
        → Selected s
    unfolding configured
    configured-Selected c d h = elim (Outcome-cases (all_volumes host sockets c)) [
      | inl (vols, e) ↦
          output-Selected c vols d (all_volumes-Found c vols e)
            (ok-injective (rw (e, configured) at h))
      | inr (inl (f, e)) ↦ absurd (cc (rw (e, configured) at h))
      | inr (inr e) ↦ absurd (cc (rw (e, configured) at h))
    ]

    pub install-Selected : install host sockets flags ≡ ok (manifests s) → Selected s
    unfolding install
    install-Selected h = elim (Bool-cases flags.show_version) [
      | inl shown ↦ absurd (cc (rw (shown, install) at h))
      | inr asked ↦ elim (Outcome-cases (detect_kubelet_process host)) [
        | inl (c, e) ↦ configured-Selected c e (rw (asked, e, install) at h)
        | inr (inl (f, e)) ↦ absurd (cc (rw (asked, e, install) at h))
        | inr (inr e) ↦ absurd (cc (rw (asked, e, install) at h))
      ]
    ]
