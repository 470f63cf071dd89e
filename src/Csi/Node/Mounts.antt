-- ===== src/Csi/Node/Mounts.antt =====
-- The mounter's cache under the requests of the node server.
use container_image_csi_driv.Base.{
  ℕ, ◌≡◌, refl, Bool, true, false, not, ◌||◌, Option, none, some, inl, inr, Bool-cases,
}
use container_image_csi_driv.Text.{Text, Text-eq}
use container_image_csi_driv.Dict.{Dict, has}
use container_image_csi_driv.Exec.{Outcome, ok, err, crash}
use container_image_csi_driv.Backend.Runtime.{Named, ContainerRuntimeMounter, RuntimeLaws}
use container_image_csi_driv.Backend.Mounter.{
  SnapshotMounter, gen_snapshot_key, mount, image_exists,
}
use container_image_csi_driv.Backend.Mounter.Contract.{Ends}
use container_image_csi_driv.Backend.Mounter.Invariant.{Inv}
use container_image_csi_driv.Backend.Mounter.Rollback.{Inv-runtime}
use container_image_csi_driv.Backend.Mounter.Sharing.{mount-Inv}
use container_image_csi_driv.Secret.Keyring.{Found}
use container_image_csi_driv.RemoteImage.{ImageService, PullError, pull}
use container_image_csi_driv.RemoteImageAsync.{
  Synchronizer, StartError, WaitResult, session_over, caller_timed_out, start_pull,
}
use container_image_csi_driv.Csi.Requests.{VolumeCapability, NodePublishVolumeRequest, Status}
use container_image_csi_driv.Csi.Node.{
  PathCheck, answer, not_exist, check_failed, FileSystem, NodeServer, Waiting, Result,
  check_request, checked, at_target, made_dir, provide, pull_image_of, pulled, waited,
  session_started, mount_volume, mounted, is_read_only, image_of, pull_always, puller_of,
  node_publish_volume,
}

module _ {rt : ContainerRuntimeMounter} (laws : RuntimeLaws rt) (svc : ImageService)
    (volume_id : Text) where
  open laws use {recorded}

  abbrev Node : Type 0
  Node = NodeServer rt svc

  -- The cache of the mounter is well formed, and has no read-only snapshot under the key of the
  -- volume's own snapshot.
  abbrev pub Good : Node → Type 0
  Good n =
      Inv laws n.mounter
      × (has (gen_snapshot_key volume_id) n.mounter.ro_snapshot_targets_map ≡ false)

  -- A request may end the process; otherwise it leaves the cache well formed.
  abbrev pub Keeps : Result rt svc → Type 0
  Keeps r = Ends {A = Unit {0}} (λ _ n. Inv laws n.mounter) (λ _ n. Inv laws n.mounter) r

  mounted-Keeps :
      (n : Node) (r : Outcome rt.Error Unit × SnapshotMounter rt.State)
      → Ends {A = Unit {0}} (λ _. Inv laws) (λ _. Inv laws) r
      → Keeps (mounted rt svc r n)
  mounted-Keeps n (ok _, m) h = h
  mounted-Keeps n (err e, m) h = h
  mounted-Keeps n (crash, m) h = tt

  module _ (req : NodePublishVolumeRequest) (same : req.volume_id ≡ volume_id) where
    mount_volume-Keeps :
        (named : Named) (ro : Outcome Status Bool) (n : Node)
        → Good n
        → Keeps (mount_volume rt svc req named ro n)
    unfolding mount_volume
    mount_volume-Keeps named (ok ro) n g =
        mounted-Keeps n (mount rt req.volume_id req.target_path named ro n.mounter)
          (mount-Inv laws req.volume_id req.target_path named ro n.mounter g.0 (rw same g.1))
    mount_volume-Keeps named (err e) n g = g.0
    mount_volume-Keeps named crash n g = tt

    module _ (await : Waiting rt svc)
        (await-Good : (id : ℕ) (n : Node) → Good n → Good (await id n).1)
        (next : Node → Result rt svc) (next-Keeps : (n : Node) → Good n → Keeps (next n)) where
      pulled-Keeps :
          (r : Outcome (PullError svc.Error) Unit × svc.State) (n : Node)
          → Good n
          → Keeps (pulled rt svc r next n)
      pulled-Keeps (ok _, i) n g = next-Keeps _ g
      pulled-Keeps (err e, i) n g = g.0
      pulled-Keeps (crash, i) n g = tt

      waited-Keeps :
          (r : WaitResult (PullError svc.Error) × Node) → Good r.1 → Keeps (waited rt svc r next)
      waited-Keeps (session_over none, n) g = next-Keeps n g
      waited-Keeps (session_over (some e), n) g = g.0
      waited-Keeps (caller_timed_out, n) g = g.0

      started-Keeps :
          (r : Outcome StartError ℕ × Synchronizer (PullError svc.Error)) (n : Node)
          → Good n
          → Keeps (session_started rt svc r await next n)
      started-Keeps (ok id, a) n g = waited-Keeps (await id _) (await-Good id _ g)
      started-Keeps (err e, a) n g = g.0
      started-Keeps (crash, a) n g = tt

      pull-Keeps :
          (image : Text) (named : Named) (lookup_keyring : Text → Found)
          (a : Option (Synchronizer (PullError svc.Error))) (n : Node)
          → Good n
          → Keeps (pull_image_of rt svc image named lookup_keyring await a next n)
      unfolding pull_image_of
      pull-Keeps image named lookup_keyring none n g =
          pulled-Keeps (pull svc (puller_of rt svc named) lookup_keyring n.images) n g
      pull-Keeps image named lookup_keyring (some a) n g =
          started-Keeps (start_pull image named.string n.async_image_pull_timeout a) n g

    module _ (parse_docker_ref : Text → Option Named) (fs : FileSystem rt.State)
        (mkdir-recorded : (target : Text) (r : rt.State) (j : Text)
          → recorded (fs.mkdir_all target r).1 j ≡ recorded r j)
        (await : Waiting rt svc)
        (await-Good : (id : ℕ) (n : Node) → Good n → Good (await id n).1) where
      provide-Keeps :
          (c : VolumeCapability) (lookup_keyring : Text → Found) (parsed : Option Named) (n : Node)
          → Good n
          → Keeps (provide rt svc parse_docker_ref fs req c lookup_keyring await parsed n)
      unfolding provide
      provide-Keeps c lookup_keyring none n g = g.0
      provide-Keeps c lookup_keyring (some named) n g =
          let mounts = mount_volume-Keeps named (is_read_only req.readonly c.access_mode) in
          elim (Bool-cases (pull_always req || not (image_exists rt named n.mounter))) [
            | inl needed ↦ rw needed (
                pull-Keeps await await-Good
                  (mount_volume rt svc req named (is_read_only req.readonly c.access_mode)) mounts
                  (image_of req) named lookup_keyring n.async_image_puller n g)
            | inr present ↦ rw present (mounts n g)
          ]

      made_dir-Keeps :
          (target : Text) (m : Bool × rt.State) (next : Node → Result rt svc) (n : Node)
          → ((j : Text) → recorded m.1 j ≡ recorded n.mounter.runtime j)
          → ((n' : Node) → Good n' → Keeps (next n'))
          → Good n
          → Keeps (made_dir rt svc parse_docker_ref fs m next n)
      made_dir-Keeps target (true, r) next n law next-Keeps g =
          next-Keeps _ (Inv-runtime laws target target n.mounter n.mounter r law g.0, g.1)
      made_dir-Keeps target (false, r) next n law next-Keeps g =
          Inv-runtime laws target target n.mounter n.mounter r law g.0

      at_target-Keeps :
          (target : Text) (check : PathCheck) (next : Node → Result rt svc) (n : Node)
          → ((n' : Node) → Good n' → Keeps (next n'))
          → Good n
          → Keeps (at_target rt svc parse_docker_ref fs target check next n)
      unfolding at_target
      at_target-Keeps target (answer true) next n next-Keeps g = next-Keeps n g
      at_target-Keeps target (answer false) next n next-Keeps g = g.0
      at_target-Keeps target not_exist next n next-Keeps g =
          made_dir-Keeps target (fs.mkdir_all target n.mounter.runtime) next n
            (mkdir-recorded target n.mounter.runtime) next-Keeps g
      at_target-Keeps target check_failed next n next-Keeps g = g.0

      checked-Keeps :
          (o : Outcome Status VolumeCapability) (next : VolumeCapability → Node → Result rt svc)
          (n : Node)
          → ((c : VolumeCapability) → Keeps (next c n))
          → Good n
          → Keeps (checked rt svc parse_docker_ref fs o next n)
      unfolding checked
      checked-Keeps (ok c) next n next-Keeps g = next-Keeps c
      checked-Keeps (err e) next n next-Keeps g = g.0
      checked-Keeps crash next n next-Keeps g = tt

      publish-Keeps :
          (lookup_for : Dict Text Text → Text → Found) (n : Node)
          → Good n
          → Keeps (node_publish_volume rt svc parse_docker_ref fs req lookup_for await n)
      unfolding node_publish_volume
      publish-Keeps lookup_for n g =
          checked-Keeps (check_request req) _ n
            (λ c.
              at_target-Keeps req.target_path
                (fs.is_likely_not_mount_point req.target_path n.mounter.runtime) _ n
                (λ n' g'.
                  provide-Keeps c (lookup_for req.secrets) (parse_docker_ref (image_of req)) n' g')
                g)
            g

-- Publishing a volume keeps the mounter's cache well formed on every path, errors included, in the
-- synchronous and in the asynchronous mode, if the cache has no read-only snapshot under the key of
-- the volume's own snapshot, if making a directory leaves the runtime's snapshots alone, and if the
-- requests that run during a wait keep the same.
pub node_publish_volume-Inv :
    {rt : ContainerRuntimeMounter} (laws : RuntimeLaws rt) (svc : ImageService)
    (parse_docker_ref : Text → Option Named) (fs : FileSystem rt.State)
    (req : NodePublishVolumeRequest) (lookup_for : Dict Text Text → Text → Found)
    (await : Waiting rt svc) (n : NodeServer rt svc)
    → ((target : Text) (r : rt.State) (j : Text)
        → laws.recorded (fs.mkdir_all target r).1 j ≡ laws.recorded r j)
    → ((id : ℕ) (m : NodeServer rt svc)
        → Good laws svc req.volume_id m
        → Good laws svc req.volume_id (await id m).1)
    → Good laws svc req.volume_id n
    → Keeps laws svc req.volume_id
        (node_publish_volume rt svc parse_docker_ref fs req lookup_for await n)
node_publish_volume-Inv laws svc parse_docker_ref fs req lookup_for await n mkdir await-Good g =
    publish-Keeps laws svc req.volume_id req refl parse_docker_ref fs mkdir await await-Good
      lookup_for n g
