-- ===== src/Csi/Samples.antt =====
-- Requests to a node with a runtime in memory.
use container_image_csi_driv.Base.{
  ℕ, ◌≡◌, ◌↔◌, refl, true, false, [], ◌∷◌, Option, none, some, All, suc,
}
use container_image_csi_driv.Text.{Text, Text-eq, codes, text_eq}
use container_image_csi_driv.Dict.{Dict, get}
use container_image_csi_driv.Exec.{ok}
use container_image_csi_driv.Backend.Runtime.{Named}
use container_image_csi_driv.Backend.Mounter.Disk.{
  Disk, disk_runtime, disk_laws, nginx, pod_a, idle, idle-Inv, one_volume, one_volume-Inv,
}
use container_image_csi_driv.Secret.Keyring.{Found}
use container_image_csi_driv.RemoteImage.{ImageService}
use container_image_csi_driv.RemoteImageAsync.{session_over}
use container_image_csi_driv.Csi.Requests.{
  single_node_reader_only, file_system, VolumeCapability, NodePublishVolumeRequest,
}
use container_image_csi_driv.Csi.Node.{
  answer, not_exist, FileSystem, NodeServer, Waiting, check_request, check_mode,
  node_publish_volume, node_unpublish_volume,
}
use container_image_csi_driv.Csi.Node.Guards.{Accepted, check_request-Accepted}
use container_image_csi_driv.Csi.Node.Mounts.{Keeps, node_publish_volume-Inv}
use container_image_csi_driv.Csi.Node.Unmounts.{Answers, node_unpublish_volume-Ends}
use container_image_csi_driv.Csi.Controller.{confirmed, validate_volume_capabilities}
use container_image_csi_driv.Csi.Controller.Modes.{Publishable, validate_iff}

abbrev reader : VolumeCapability
reader = record { access_type = file_system; access_mode = some single_node_reader_only }

abbrev request : NodePublishVolumeRequest
request = record {
  volume_id = codes "v1";
  target_path = pod_a;
  volume_capability = some reader;
  volume_context = (codes "image", codes "nginx:1") ∷ [];
  secrets = [];
  readonly = true;
}

check_request-Accepted_example : Accepted request reader
unfolding check_request check_mode get text_eq
check_request-Accepted_example = check_request-Accepted request reader refl

validate_iff_example :
    (validate_volume_capabilities (reader ∷ []) ≡ confirmed) ↔ All Publishable (reader ∷ [])
validate_iff_example = validate_iff (reader ∷ [])

abbrev public_service : ImageService
public_service = record {
  State = ℕ;
  Error = Text;
  pull_image = λ image auth n. (none, suc n);
  image_status = λ image n. (ok none, n);
}

abbrev files : FileSystem Disk
files = record {
  is_likely_not_mount_point = λ target d. not_exist;
  is_mount_point = λ target d. answer true;
  mkdir_all = λ target d. (true, d);
}

abbrev parse_ref : Text → Option Named
parse_ref image = some nginx

abbrev no_login : Dict Text Text → Text → Found
no_login secrets image = some ([], false)

abbrev undisturbed : Waiting disk_runtime public_service
undisturbed id n = (session_over none, n)

abbrev idle_node : NodeServer disk_runtime public_service
idle_node = record {
  mounter = idle;
  images = 0;
  async_image_puller = none;
  async_image_pull_timeout = 0;
}

abbrev busy_node : NodeServer disk_runtime public_service
busy_node = record idle_node { mounter = one_volume }

node_publish_volume-Inv_example : Keeps disk_laws public_service (codes "v1") (
    node_publish_volume disk_runtime public_service parse_ref files request no_login undisturbed
      idle_node)
unfolding get
node_publish_volume-Inv_example =
    node_publish_volume-Inv disk_laws public_service parse_ref files request no_login undisturbed
      idle_node (λ target d j. refl) (λ id m g. g) (idle-Inv, refl)

node_unpublish_volume-Ends_example :
    Answers disk_laws public_service parse_ref files
      (codes "v1")
      pod_a
      busy_node
      one_volume-Inv
      (files.is_mount_point pod_a busy_node.mounter.runtime)
      (node_unpublish_volume disk_runtime public_service parse_ref files
        (codes "v1")
        pod_a
        busy_node)
unfolding get text_eq
node_unpublish_volume-Ends_example =
    node_unpublish_volume-Ends disk_laws public_service parse_ref files (codes "v1") pod_a busy_node
      one_volume-Inv (λ e. cc e)
