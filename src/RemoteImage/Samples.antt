-- ===== src/RemoteImage/Samples.antt =====
-- A registry that wants a credential.
use container_image_csi_driv.Base.{ℕ, suc, true, [], ◌∷◌, Option, none, some}
use container_image_csi_driv.Text.{Text, codes}
use container_image_csi_driv.Exec.{ok}
use container_image_csi_driv.Secret.Auth.{AuthConfig}
use container_image_csi_driv.Secret.Keyring.{Found}
use container_image_csi_driv.RemoteImage.{ImageService, Puller, pull}
use container_image_csi_driv.RemoteImage.Attempts.{Pulled, pull-Pulled}

abbrev login : AuthConfig
login = record {
  username = codes "u";
  password = codes "p";
  auth = [];
  server_address = [];
  identity_token = [];
  registry_token = [];
}

-- The state counts the requests.
private_pull : Option AuthConfig → ℕ → Option Text × ℕ
private_pull none n = (some (codes "denied"), suc n)
private_pull (some a) n = (none, suc n)

abbrev private_service : ImageService
private_service = record {
  State = ℕ;
  Error = Text;
  pull_image = λ image auth n. private_pull auth n;
  image_status = λ image n. (ok none, n);
}

abbrev app : Puller
app = record { image_with_tag = codes "r.io/app:1"; image_without_tag = codes "r.io/app" }

abbrev one_login : Text → Found
one_login image = some (login ∷ [], true)

pull-Pulled_example : Pulled private_service app one_login 0 (pull private_service app one_login 0)
pull-Pulled_example = pull-Pulled private_service app one_login 0
