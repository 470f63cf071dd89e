-- ===== src/Csi/Controller/Modes.antt =====
-- What the controller confirms is what the node accepts.
use container_image_csi_driv.Base.{
  ◌≡◌, ◌↔◌, refl, false, List, [], ◌∷◌, Option, none, some, arith, All,
}
use container_image_csi_driv.Exec.{ok}
use container_image_csi_driv.Csi.Requests.{AccessMode, VolumeCapability}
use container_image_csi_driv.Csi.Node.{check_mode}
use container_image_csi_driv.Csi.Controller.{
  Validation, confirmed, validate_mode, validate_volume_capabilities,
}

-- The guard that NodePublishVolume has for volumes that are not ephemeral.
abbrev pub Publishable : VolumeCapability → Type 0
Publishable c = check_mode false c.access_mode ≡ ok tt

mode_iff :
    (mode : Option AccessMode) (later : Validation)
    → (validate_mode mode later ≡ confirmed)
      ↔ ((check_mode false mode ≡ ok tt) × (later ≡ confirmed))
unfolding check_mode
mode_iff none later = (λ h. cc h, λ h. cc (h.0))
mode_iff (some mode) later = ground arith

-- The controller confirms a list of capabilities exactly if the node accepts the access mode of each
-- for a volume that is not ephemeral.
pub validate_iff :
    (capabilities : List VolumeCapability)
    → (validate_volume_capabilities capabilities ≡ confirmed) ↔ All Publishable capabilities
unfolding validate_volume_capabilities
validate_iff [] = (λ _. tt, λ _. refl)
validate_iff (c ∷ capabilities) =
    let later = validate_volume_capabilities capabilities in
    let (to, from) = mode_iff c.access_mode later in
    let rest = validate_iff capabilities in
    (λ h. ((to h).0, rest.0 (to h).1), λ h. from (h.0, rest.1 h.1))
