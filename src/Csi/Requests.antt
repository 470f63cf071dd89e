-- ===== src/Csi/Requests.antt =====
-- What the driver reads of the messages of the Container Storage Interface, and its status codes.
use container_image_csi_driv.Base.{Bool, true, false, [], Option, or_else}
use container_image_csi_driv.Text.{Text, Text-eq}
use container_image_csi_driv.Dict.{Dict, get}

-- csi.VolumeCapability_AccessMode
pub data AccessMode : Type 0 where
  unknown_mode : AccessMode
  single_node_writer : AccessMode
  single_node_reader_only : AccessMode
  multi_node_reader_only : AccessMode
  multi_node_single_writer : AccessMode
  multi_node_multi_writer : AccessMode
  single_node_single_writer : AccessMode
  single_node_multi_writer : AccessMode

pub data AccessType : Type 0 where
  block : AccessType
  file_system : AccessType
  no_type : AccessType

-- The access mode is a pointer, which may be nil.
pub record VolumeCapability : Type 0 where
  pub access_type : AccessType
  pub access_mode : Option AccessMode

pub record NodePublishVolumeRequest : Type 0 where
  pub volume_id : Text
  pub target_path : Text
  pub volume_capability : Option VolumeCapability
  pub volume_context : Dict Text Text
  pub secrets : Dict Text Text
  pub readonly : Bool

-- The codes of google.golang.org/grpc/codes that the driver uses; an error that is no status is
-- `unknown`.
pub data Code : Type 0 where
  invalid_argument : Code
  internal : Code
  aborted : Code
  unimplemented : Code
  unknown : Code

-- What the text of an error says.
pub data Reason : Type 0 where
  volume_id_missing : Reason
  target_path_missing : Reason
  volume_capability_missing : Reason
  block_device : Reason
  volume_context_missing : Reason
  access_mode_not_read_only : Reason
  path_check_failed : Reason
  mkdir_failed : Reason
  image_not_normalized : Reason
  pull_not_started : Reason
  pull_failed : Reason
  mount_failed : Reason
  unmount_failed : Reason
  not_offered : Reason
  no_volume_handle : Reason

pub record Status : Type 0 where
  pub code : Code
  pub reason : Reason

abbrev pub reader_only : AccessMode → Bool
reader_only single_node_reader_only = true
reader_only multi_node_reader_only = true
reader_only _ = false

-- req.VolumeContext[key]
abbrev pub context : Text → Dict Text Text → Text
context key ctx = or_else (get key ctx) []
