-- ===== src/Install/Setup/Names.antt =====
-- The names of the volumes of the driver's pods; Kubernetes refuses a pod in which two are the same.
use container_image_csi_driv.Base.{
  ℕ, suc, ◌<◌, ◌≡◌, ◌≢◌, sym, ap, List, [], ◌∷◌, ◌++◌, Option, none, some, arith, drop, All,
  Bool-cases, Option-cases, inl, inr, append-nil,
}
use container_image_csi_driv.Text.{Text, codes}
use container_image_csi_driv.Exec.{ok}
use container_image_csi_driv.Strings.Decimal.{decimal, decimal-injective}
use container_image_csi_driv.Install.{
  Volume, within, add_volume, add_all, runtime_volumes, add_volume-All,
}
use container_image_csi_driv.Install.Cri.{Sockets, image_volumes, detect_image_svc_volumes}
use container_image_csi_driv.Install.Kubelet.{NodeHost, containerd}
use container_image_csi_driv.Install.Setup.{Setup, InstallFlags, manifests, install, image_part}
use container_image_csi_driv.Install.Setup.Mounted.{install-Selected, named_volumes}

-- No volume has the name.
abbrev pub Unnamed : Text → List Volume → Type 0
Unnamed name vols = All (λ (w : Volume). w.name ≢ name) vols

abbrev pub Distinct : List Volume → Type 0
Distinct [] = Unit
Distinct (v ∷ vols) = Unnamed v.name vols × Distinct vols

add_volume-Distinct :
    (v : Volume) (vols : List Volume)
    → Unnamed v.name vols
    → Distinct vols
    → Distinct (add_volume v vols)
unfolding add_volume
add_volume-Distinct v [] n d = (tt, tt)
add_volume-Distinct v (vol ∷ vols) n d = elim (Bool-cases (within v vol)) [
  | inl dropped ↦ rw (dropped, add_volume) d
  | inr other ↦ elim (Bool-cases (within vol v)) [
    | inl replaced ↦ rw (other, replaced, add_volume) (n.1, d.1)
    | inr apart ↦
        rw (other, apart, add_volume)
          (
            add_volume-All (λ (w : Volume). w.name ≢ vol.name) v vols (λ e. n.0 (sym e)) d.0,
            add_volume-Distinct v vols n.1 d.1,
          )
  ]
]

-- No name of the one list is in the other.
abbrev Apart : List Volume → List Volume → Type 0
Apart vols conf = All (λ (v : Volume). Unnamed v.name conf) vols

add_all-Distinct :
    (vols conf : List Volume)
    → Distinct vols
    → Distinct conf
    → Apart vols conf
    → Distinct (add_all vols conf)
unfolding add_all
add_all-Distinct [] conf d k a = k
add_all-Distinct (v ∷ vols) conf d k a =
    add_all-Distinct vols (add_volume v conf) d.1 (add_volume-Distinct v conf a.0 k)
      (apart vols d.0 a.1)
  where
    apart : (ws : List Volume) → Unnamed v.name ws → Apart ws conf → Apart ws (add_volume v conf)
    apart [] n b = tt
    apart (w ∷ ws) n b = (
      add_volume-All (λ (x : Volume). x.name ≢ w.name) v conf (λ e. n.0 (sym e)) b.0,
      apart ws n.1 b.1,
    )

nothing-Apart : (vols : List Volume) → Apart vols []
nothing-Apart [] = tt
nothing-Apart (v ∷ vols) = (tt, nothing-Apart vols)

runtime_volumes-Distinct : (vols : List Volume) → Distinct vols → Distinct (runtime_volumes vols)
unfolding runtime_volumes
runtime_volumes-Distinct vols d = add_all-Distinct vols [] d tt (nothing-Apart vols)

root_name : ℕ → Text
root_name i = codes "snapshot-root-" ++ decimal i

root_name-injective : (i j : ℕ) → root_name i ≡ root_name j → i ≡ j
unfolding root_name
root_name-injective i j e = decimal-injective i j (ap (drop 14) e)

image_volumes-Unnamed :
    (k i : ℕ) (filesystems : List (Option Text))
    → k < i
    → Unnamed (root_name k) (image_volumes i filesystems)
unfolding image_volumes root_name
image_volumes-Unnamed k i [] h = tt
image_volumes-Unnamed k i (none ∷ fss) h = image_volumes-Unnamed k (suc i) fss (omega arith)
image_volumes-Unnamed k i (some m ∷ fss) h = (
  λ e. let same = root_name-injective i k e in absurd (omega arith),
  image_volumes-Unnamed k (suc i) fss (omega arith),
)

image_volumes-Distinct :
    (i : ℕ) (filesystems : List (Option Text)) → Distinct (image_volumes i filesystems)
unfolding image_volumes root_name
image_volumes-Distinct i [] = tt
image_volumes-Distinct i (none ∷ fss) = image_volumes-Distinct (suc i) fss
image_volumes-Distinct i (some m ∷ fss) =
    (image_volumes-Unnamed i (suc i) fss (omega arith), image_volumes-Distinct (suc i) fss)

detected-Distinct :
    (sockets : Sockets) (path : Text) → Distinct (detect_image_svc_volumes sockets path)
unfolding detect_image_svc_volumes
detected-Distinct sockets path = elim (Option-cases (sockets.image_fs_info path)) [
  | inl e ↦ rw (e, detect_image_svc_volumes) tt
  | inr (fss, e) ↦ rw (e, detect_image_svc_volumes) (image_volumes-Distinct 0 fss)
]

module _ (host : NodeHost) (sockets : Sockets) (flags : InstallFlags) (s : Setup) where
  -- On containerd, no two of the volumes that the installer gives the pods have the same name,
  -- however many file systems the image service has.
  pub install-Distinct :
      install host sockets flags ≡ ok (manifests s)
      → s.config.runtime ≡ containerd
      → Distinct s.volumes
  unfolding named_volumes
  install-Distinct h e =
      let p = install-Selected host sockets flags s h in
      rw (p.chosen, e, append-nil (image_part host sockets s.config))
        (runtime_volumes-Distinct _ (detected-Distinct sockets s.config.image_socket_path))
