-- ===== src/RemoteImage.antt =====
-- pkg/remoteimage/pull.go: a pull, first without credentials, then with each credential of the
-- keyring. The CRI image service is a parameter; the metrics are left out.
pub mod Attempts
mod Samples
use container_image_csi_driv.Base.{
  ℕ, suc, Bool, true, false, not, ◌||◌, List, [], ◌∷◌, Option, none, some, is_empty, if◌then◌else◌,
}
use container_image_csi_driv.Text.{Text}
use container_image_csi_driv.Exec.{Outcome, ok, err, crash}
use container_image_csi_driv.Secret.Auth.{AuthConfig}
use container_image_csi_driv.Secret.Keyring.{Found}

-- cri.ImageServiceClient: PullImage of a name, with or without a credential, and ImageStatus.
pub record ImageService : Type 1 where
  pub State : Type 0
  pub Error : Type 0
  pub pull_image : Text → Option AuthConfig → State → Option Error × State
  pub image_status : Text → State → Outcome Error (Option (Option ℕ)) × State

-- The error of Pull: the one of the pull without credentials where there are none, or those of the
-- credential options, numbered from 1.
pub data PullError (E : Type 0) : Type 0 where
  no_credentials : E → PullError E
  all_options : List (ℕ × E) → PullError E

pub data SizeError (E : Type 0) : Type 0 where
  status_failed : E → SizeError E
  nil_response : SizeError E
  nil_image : SizeError E

-- puller
pub record Puller : Type 0 where
  pub image_with_tag : Text
  pub image_without_tag : Text

module _ (svc : ImageService) where
  open svc use {State, Error, pull_image, image_status}

  abbrev option_result :
      ℕ
      → Option Error × State
      → (State → List (ℕ × Error) × Bool × State)
      → List (ℕ × Error) × Bool × State
  option_result n (none, s) next = ([], true, s)
  option_result n (some e, s) next = let rest = next s in ((n, e) ∷ rest.0, rest.1, rest.2)

  -- The loop of tryCredentials from option `n` on: the errors, and whether an option succeeded.
  unfoldable pub try_options : Text → ℕ → List AuthConfig → State → List (ℕ × Error) × Bool × State
  try_options image n [] s = ([], false, s)
  try_options image n (auth ∷ auths) s =
      option_result n (pull_image image (some auth) s) (try_options image (suc n) auths)

  abbrev pub aggregate : List (ℕ × Error) × Bool × State → Outcome (PullError Error) Unit × State
  aggregate (errs, true, s) = (ok tt, s)
  aggregate (errs, false, s) = (err (all_options errs), s)

  unfoldable pub try_credentials :
      Text → List AuthConfig → State → Outcome (PullError Error) Unit × State
  try_credentials image auths s = aggregate (try_options image 1 auths s)

  pub with_credentials : Text → Error → Found → State → Outcome (PullError Error) Unit × State
  with_credentials image e none s = (crash, s)
  with_credentials image e (some (auths, found)) s =
      if not found || is_empty auths
      then (err (no_credentials e), s)
      else try_credentials image auths s

  pub after_first :
      Puller → (Text → Found) → Option Error × State → Outcome (PullError Error) Unit × State
  after_first p lookup (none, s) = (ok tt, s)
  after_first p lookup (some e, s) =
      with_credentials p.image_with_tag e (lookup p.image_without_tag) s

  -- `lookup` is that of the puller's keyring.
  unfoldable pub pull : Puller → (Text → Found) → State → Outcome (PullError Error) Unit × State
  unfolding after_first with_credentials
  pull p lookup s = after_first p lookup (pull_image p.image_with_tag none s)

  abbrev size_of : Outcome Error (Option (Option ℕ)) × State → Outcome (SizeError Error) ℕ × State
  size_of (ok none, s) = (err nil_response, s)
  size_of (ok (some none), s) = (err nil_image, s)
  size_of (ok (some (some size)), s) = (ok size, s)
  size_of (err e, s) = (err (status_failed e), s)
  size_of (crash, s) = (crash, s)

  unfoldable pub image_size : Puller → State → Outcome (SizeError Error) ℕ × State
  image_size p s = size_of (image_status p.image_with_tag s)
