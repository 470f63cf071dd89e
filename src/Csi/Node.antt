-- ===== src/Csi/Node.antt =====
-- cmd/plugin/node_server.go: `NodeServer`. The mount table of the node is part of the runtime's
-- state. `reference.ParseDockerRef`, the file system and the image service are parameters.
pub mod Guards
pub mod Mounts
pub mod Unmounts
use container_image_csi_driv.Base.{
  ℕ, Bool, true, false, not, ◌&&◌, ◌||◌, List, [], ◌∷◌, Option, none, some, is_empty, leb,
  if◌then◌else◌,
}
use container_image_csi_driv.Text.{Text, Text-eq, codes, text_eq}
use container_image_csi_driv.Strings.{to_lower}
use container_image_csi_driv.Dict.{Dict}
use container_image_csi_driv.Exec.{Outcome, ok, err, crash}
use container_image_csi_driv.Backend.Runtime.{Named, ContainerRuntimeMounter}
use container_image_csi_driv.Backend.Mounter.{SnapshotMounter, mount, unmount, image_exists}
use container_image_csi_driv.Secret.Keyring.{Found, Keyring, lookup}
use container_image_csi_driv.RemoteImage.{ImageService, Puller, PullError, pull}
use container_image_csi_driv.RemoteImageAsync.{
  Synchronizer, StartError, WaitResult, session_over, caller_timed_out, start_async_puller,
  start_pull,
}
use container_image_csi_driv.Csi.Requests.{
  AccessMode, AccessType, block, VolumeCapability, NodePublishVolumeRequest, Code, invalid_argument,
  internal, aborted, unknown, Reason, volume_id_missing, target_path_missing,
  volume_capability_missing, block_device, volume_context_missing, access_mode_not_read_only,
  path_check_failed, mkdir_failed, image_not_normalized, pull_not_started, pull_failed,
  mount_failed, unmount_failed, Status, reader_only, context,
}

-- The answer of IsLikelyNotMountPoint and of IsMountPoint.
pub data PathCheck : Type 0 where
  answer : Bool → PathCheck
  not_exist : PathCheck
  check_failed : PathCheck

-- The node's file system, as part of the state of the runtime.
pub record FileSystem (S : Type 0) : Type 0 where
  pub is_likely_not_mount_point : Text → S → PathCheck
  pub is_mount_point : Text → S → PathCheck
  pub mkdir_all : Text → S → Bool × S

module _ (rt : ContainerRuntimeMounter) (svc : ImageService) where
  -- The state behind the node server: the mounter with its runtime, the image service, and the
  -- asynchronous puller, if there is one, with its timeout in seconds.
  pub record NodeServer : Type 0 where
    pub mounter : SnapshotMounter rt.State
    pub images : svc.State
    pub async_image_puller : Option (Synchronizer (PullError svc.Error))
    pub async_image_pull_timeout : ℕ

  -- Whatever else happens on the node until WaitForPull of a session returns, and what it returns.
  abbrev pub Waiting : Type 0
  Waiting = ℕ → NodeServer → WaitResult (PullError svc.Error) × NodeServer

  -- NewNodeServer, with a channel of 100 places.
  unfoldable pub new_node_server : SnapshotMounter rt.State → svc.State → ℕ → NodeServer
  new_node_server mounter images timeout =
      if leb 30 timeout
      then record {
        mounter = mounter;
        images = images;
        async_image_puller = start_async_puller 100;
        async_image_pull_timeout = timeout;
      }
      else record {
        mounter = mounter;
        images = images;
        async_image_puller = none;
        async_image_pull_timeout = 0;
      }

abbrev pub rejected : {A : Type 0} → Code → Reason → Outcome Status A
rejected code reason = err (record { code = code; reason = reason })

abbrev pub is_ephemeral : NodePublishVolumeRequest → Bool
is_ephemeral req =
    text_eq (context (codes "csi.storage.k8s.io/ephemeral") req.volume_context) (codes "true")

-- The guard on the access mode; reading a nil mode panics.
unfoldable pub check_mode : Bool → Option AccessMode → Outcome Status Unit
check_mode true mode = ok tt
check_mode false none = crash
check_mode false (some mode) =
    if reader_only mode then ok tt else rejected invalid_argument access_mode_not_read_only

abbrev pub is_block : AccessType → Bool
is_block block = true
is_block _ = false

check_capability :
    NodePublishVolumeRequest → Option VolumeCapability → Outcome Status VolumeCapability
check_capability req none = rejected invalid_argument volume_capability_missing
check_capability req (some cap) =
    if is_block cap.access_type
    then rejected invalid_argument block_device
    else if is_empty req.volume_context
    then rejected invalid_argument volume_context_missing
    else elim (check_mode (is_ephemeral req) cap.access_mode) [
      | ok _ ↦ ok cap
      | err e ↦ err e
      | crash ↦ crash
    ]

-- The guards of NodePublishVolume on its request, in their order.
unfoldable pub check_request : NodePublishVolumeRequest → Outcome Status VolumeCapability
unfolding check_capability check_mode
check_request req =
    if is_empty req.volume_id
    then rejected invalid_argument volume_id_missing
    else if is_empty req.target_path
    then rejected invalid_argument target_path_missing
    else check_capability req req.volume_capability

-- For PVs, the volume's id is the image.
unfoldable pub image_of : NodePublishVolumeRequest → Text
image_of req =
    let handle = context (codes "volumeHandle") req.volume_context in
    let image = context (codes "image") req.volume_context in
    if not (is_empty handle) then handle else if not (is_empty image) then image else req.volume_id

abbrev pub pull_always : NodePublishVolumeRequest → Bool
pull_always req =
    text_eq (to_lower (context (codes "pullAlways") req.volume_context)) (codes "true")

-- req.Readonly || AccessMode.Mode == ..., where a nil mode panics.
unfoldable pub is_read_only : Bool → Option AccessMode → Outcome Status Bool
is_read_only true mode = ok true
is_read_only false none = crash
is_read_only false (some mode) = ok (reader_only mode)

module _ (rt : ContainerRuntimeMounter) (svc : ImageService) where
  abbrev Node : Type 0
  Node = NodeServer rt svc

  abbrev pub Result : Type 0
  Result = Outcome Status Unit × Node

  abbrev with_mounter : SnapshotMounter rt.State → Node → Node
  with_mounter m n = record n { mounter = m }

  abbrev with_runtime : rt.State → Node → Node
  with_runtime r n = record n { mounter = record n.mounter { runtime = r } }

  abbrev mounted : Outcome rt.Error Unit × SnapshotMounter rt.State → Node → Result
  mounted (ok _, m) n = (ok tt, with_mounter m n)
  mounted (err e, m) n = (rejected internal mount_failed, with_mounter m n)
  mounted (crash, m) n = (crash, with_mounter m n)

  -- n.mounter.Mount of the volume
  mount_volume : NodePublishVolumeRequest → Named → Outcome Status Bool → Node → Result
  mount_volume req named (ok ro) n =
      mounted (mount rt req.volume_id req.target_path named ro n.mounter) n
  mount_volume req named (err e) n = (err e, n)
  mount_volume req named crash n = (crash, n)

  abbrev pulled : Outcome (PullError svc.Error) Unit × svc.State → (Node → Result) → Node → Result
  pulled (ok _, i) next n = next (record n { images = i })
  pulled (err e, i) next n = (rejected aborted pull_failed, record n { images = i })
  pulled (crash, i) next n = (crash, record n { images = i })

  abbrev waited : WaitResult (PullError svc.Error) × Node → (Node → Result) → Result
  waited (session_over none, n) next = next n
  waited (session_over (some e), n) next = (rejected aborted pull_failed, n)
  waited (caller_timed_out, n) next = (rejected aborted pull_failed, n)

  abbrev session_started :
      Outcome StartError ℕ × Synchronizer (PullError svc.Error)
      → Waiting rt svc
      → (Node → Result)
      → Node
      → Result
  session_started (ok id, a) await next n =
      waited (await id (record n { async_image_puller = some a })) next
  session_started (err e, a) await next n =
      (rejected aborted pull_not_started, record n { async_image_puller = some a })
  session_started (crash, a) await next n = (crash, record n { async_image_puller = some a })

  abbrev puller_of : Named → Puller
  puller_of named = record { image_with_tag = named.string; image_without_tag = named.name }

  -- The pull, by the session of the image or in the request itself.
  pull_image_of :
      Text
      → Named
      → (Text → Found)
      → Waiting rt svc
      → Option (Synchronizer (PullError svc.Error))
      → (Node → Result)
      → Node
      → Result
  pull_image_of image named lookup_keyring await none next n =
      pulled (pull svc (puller_of named) lookup_keyring n.images) next n
  pull_image_of image named lookup_keyring await (some a) next n =
      session_started (start_pull image named.string n.async_image_pull_timeout a) await next n

  module _ (parse_docker_ref : Text → Option Named) (fs : FileSystem rt.State) where
    open fs use {is_likely_not_mount_point, is_mount_point, mkdir_all}

    -- From the keyring on.
    provide :
        NodePublishVolumeRequest
        → VolumeCapability
        → (Text → Found)
        → Waiting rt svc
        → Option Named
        → Node
        → Result
    provide req cap lookup_keyring await none n = (rejected unknown image_not_normalized, n)
    provide req cap lookup_keyring await (some named) n =
        let next = mount_volume req named (is_read_only req.readonly cap.access_mode) in
        if pull_always req || not (image_exists rt named n.mounter)
        then pull_image_of (image_of req) named lookup_keyring await n.async_image_puller next n
        else next n

    abbrev made_dir : Bool × rt.State → (Node → Result) → Node → Result
    made_dir (true, r) next n = next (with_runtime r n)
    made_dir (false, r) next n = (rejected internal mkdir_failed, with_runtime r n)

    -- A target that is mounted already is left alone; a missing one is made.
    at_target : Text → PathCheck → (Node → Result) → Node → Result
    at_target target (answer true) next n = next n
    at_target target (answer false) next n = (ok tt, n)
    at_target target not_exist next n = made_dir (mkdir_all target n.mounter.runtime) next n
    at_target target check_failed next n = (rejected internal path_check_failed, n)

    checked : Outcome Status VolumeCapability → (VolumeCapability → Node → Result) → Node → Result
    checked (ok cap) next n = next cap n
    checked (err e) next n = (err e, n)
    checked crash next n = (crash, n)

    -- `lookup_for secrets` is the lookup of the keyring that GetDockerKeyring gives for the secrets; it
    -- always gives one.
    unfoldable pub node_publish_volume :
        NodePublishVolumeRequest → (Dict Text Text → Text → Found) → Waiting rt svc → Node → Result
    unfolding checked at_target provide pull_image_of mount_volume
    node_publish_volume req lookup_for await n =
        checked (check_request req)
          (λ cap.
            at_target req.target_path (is_likely_not_mount_point req.target_path n.mounter.runtime)
              (λ n'.
                provide req cap (lookup_for req.secrets) await (parse_docker_ref (image_of req))
                  n'))
          n

    abbrev unmounted : Outcome rt.Error Unit × SnapshotMounter rt.State → Node → Result
    unmounted (ok _, m) n = (ok tt, with_mounter m n)
    unmounted (err e, m) n = (rejected internal unmount_failed, with_mounter m n)
    unmounted (crash, m) n = (crash, with_mounter m n)

    -- A target that is gone or not mounted counts as unmounted.
    unmount_at : Text → Text → PathCheck → Node → Result
    unmount_at volume_id target (answer true) n =
        unmounted (unmount rt volume_id target n.mounter) n
    unmount_at volume_id target (answer false) n = (ok tt, n)
    unmount_at volume_id target not_exist n = (ok tt, n)
    unmount_at volume_id target check_failed n = (rejected internal path_check_failed, n)

    unfoldable pub node_unpublish_volume : Text → Text → Node → Result
    unfolding unmount_at
    node_unpublish_volume volume_id target n =
        if is_empty volume_id
        then (rejected invalid_argument volume_id_missing, n)
        else if is_empty target
        then (rejected invalid_argument target_path_missing, n)
        else unmount_at volume_id target (is_mount_point target n.mounter.runtime) n
