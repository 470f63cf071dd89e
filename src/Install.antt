-- ===== src/Install.antt =====
-- cmd/install/main.go: the volumes that the installer gives to the driver's pods, without those that
-- another one has in it already.
pub mod Cri
pub mod Kubelet
pub mod Setup
mod Samples
use container_image_csi_driv.Base.{
  ◌≡◌, refl, ◌⊎◌, inl, inr, Bool, true, false, ◌||◌, List, [], ◌∷◌, ◌++◌, arith, if◌then◌else◌, All,
  All-append, Bool-cases,
}
use container_image_csi_driv.Text.{Text}
use container_image_csi_driv.Strings.{has_prefix, has_prefix_refl, has_prefix_trans}

-- corev1.HostPathType, the two that the installer uses
pub data HostPathType : Type 0 where
  directory : HostPathType
  file : HostPathType

-- corev1.Volume with a host path; the installer gives every volume a type.
pub record Volume : Type 0 where
  pub name : Text
  pub path : Text
  pub kind : HostPathType

-- strings.HasPrefix(v.HostPath.Path, vol.HostPath.Path)
abbrev pub within : Volume → Volume → Bool
within v vol = has_prefix v.path vol.path

-- One volume more: it is dropped, it replaces the first that is within it, or it comes last.
unfoldable pub add_volume : Volume → List Volume → List Volume
add_volume v [] = v ∷ []
add_volume v (vol ∷ vols) =
    let rest = add_volume v vols in
    if within v vol then vol ∷ vols else if within vol v then v ∷ vols else vol ∷ rest

add_all : List Volume → List Volume → List Volume
add_all [] conf = conf
add_all (v ∷ vols) conf = add_all vols (add_volume v conf)

-- conf.RuntimeVolumes
unfoldable pub runtime_volumes : List Volume → List Volume
unfolding add_all add_volume
runtime_volumes vols = add_all vols []

-- Some volume of the list has the path in it.
abbrev pub covered : List Volume → Volume → Bool
covered [] v = false
covered (vol ∷ vols) v = within v vol || covered vols v

add-covers : (v : Volume) (vols : List Volume) → covered (add_volume v vols) v ≡ true
unfolding add_volume
add-covers v [] = ground (arith, has_prefix_refl v.path)
add-covers v (vol ∷ vols) = ground (arith, has_prefix_refl v.path, add-covers v vols)

add-keeps :
    (v w : Volume) (vols : List Volume)
    → covered vols w ≡ true
    → covered (add_volume v vols) w ≡ true
unfolding add_volume
add-keeps v w [] h = absurd (ground arith)
add-keeps v w (vol ∷ vols) h =
    ground (arith, has_prefix_trans w.path vol.path v.path, add-keeps v w vols)

add_all-keeps :
    (vols conf : List Volume) (w : Volume)
    → covered conf w ≡ true
    → covered (add_all vols conf) w ≡ true
unfolding add_all
add_all-keeps [] conf w h = h
add_all-keeps (v ∷ vols) conf w h = add_all-keeps vols (add_volume v conf) w (add-keeps v w conf h)

add_all-covers : (vols conf : List Volume) → All (λ v. covered (add_all vols conf) v ≡ true) vols
unfolding add_all
add_all-covers [] conf = tt
add_all-covers (v ∷ vols) conf = (
  add_all-keeps vols (add_volume v conf) v (add-covers v conf),
  add_all-covers vols (add_volume v conf),
)

-- Every volume that was detected is within one that the pods get.
pub runtime_volumes-cover :
    (vols : List Volume) → All (λ v. covered (runtime_volumes vols) v ≡ true) vols
unfolding runtime_volumes
runtime_volumes-cover vols = add_all-covers vols []

module _ (P : Volume → Type 0) where
  pub add_volume-All :
      (v : Volume) (vols : List Volume) → P v → All P vols → All P (add_volume v vols)
  unfolding add_volume
  add_volume-All v [] p h = (p, tt)
  add_volume-All v (vol ∷ vols) p h = elim (Bool-cases (within v vol)) [
    | inl dropped ↦ rw (dropped, add_volume) h
    | inr other ↦ elim (Bool-cases (within vol v)) [
      | inl replaced ↦ rw (other, replaced, add_volume) (p, h.1)
      | inr apart ↦ rw (other, apart, add_volume) (h.0, add_volume-All v vols p h.1)
    ]
  ]

  add_all-All : (vols conf : List Volume) → All P vols → All P conf → All P (add_all vols conf)
  unfolding add_all
  add_all-All [] conf h k = k
  add_all-All (v ∷ vols) conf h k =
      add_all-All vols (add_volume v conf) h.1 (add_volume-All v conf h.0 k)

  -- The pods get volumes that were detected, and no other.
  pub runtime_volumes-All : (vols : List Volume) → All P vols → All P (runtime_volumes vols)
  unfolding runtime_volumes
  runtime_volumes-All vols h = add_all-All vols [] h tt
