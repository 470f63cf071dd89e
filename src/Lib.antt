-- ===== src/Lib.antt =====
-- The container image CSI driver: it mounts container images as volumes of pods.
--
-- Parts and their files (paths from the repository's root):
--   Backend/Metadata, Backend/Runtime, Backend/Mounter: pkg/backend. `SnapshotMounter` shares one
--     read-only snapshot of an image among the volumes that mount it. `ref_ro_snapshot`,
--     `unref_ro_snapshot`, `mount` and `unmount` are refROSnapshot, unrefROSnapshot, Mount and
--     Unmount, as actions on a state that holds the two maps and the runtime's own state. The
--     container runtime is a record of operations with the laws that the mounter relies on
--     (`ContainerRuntimeMounter`, `RuntimeLaws`); the lock makes each reference and each release one
--     step of `Interleaving`. Backend/Mounter/Restart is buildSnapshotCacheOrDie.
--   Backend/Containerd: pkg/backend/containerd/containerd.go. The labels of a snapshot hold its
--     targets; Service is `snapshotMounter` over a snapshotter, a client and a host, as a
--     `ContainerRuntimeMounter`; Mounts is mountInHostNamespace and describeMounts, and Nsenter
--     nsenter_mount_linux.go, where a copy of the driver mounts in the host's namespace.
--   Backend/Crio: pkg/backend/crio/crio.go, prepareSnapshot and the loop of ListSnapshots; Service is
--     its `snapshotMounter` over the store of containers/storage, as a `ContainerRuntimeMounter`;
--     Config is fetchCriOConfigOrDie.
--   RemoteImage: pkg/remoteimage/pull.go. `pull` is Pull over an image service that is a parameter.
--   RemoteImageAsync: pkg/remoteimageasync. Sessions lie in a heap; requests, the puller loop, its
--     goroutines and the shutdown are the steps of `Steps.Step`, in any order.
--   Secret/Wildcard, Secret/Registry, Secret/Plugin: pkg/secret/plugin.go, image patterns, registry
--     names, and the plugins that give credentials.
--   Secret/Auth, Secret/Keyring: pkg/secret/types.go, docker configs and keyrings; Secret/Base64 is
--     encoding/base64.
--   Secret/Store: pkg/secret/cache.go, the keyring of all sources.
--   Csi/Node, Csi/Controller, Csi/Requests: cmd/plugin/node_server.go and controller_server.go, with
--     GetImage of pkg/watcher/watcher.go. `node_publish_volume` calls the mounter, the pull and the
--     asynchronous puller of the modules above.
--   Driver: cmd/plugin/main.go, from the flags to the services that are started, with `New` of
--     pkg/watcher/watcher.go and CreateStoreOrDie of pkg/secret/cache.go. Endpoint: parseEndpoint and
--     serve of pkg/csi-common/utils.go.
--   Install: cmd/install. Kubelet is the detection of the runtime, Cri the volumes of the image
--     service and of CRI-O, and Setup the `main` that puts them together for the driver's pods.
--   Base, Text, Strings, Dict, Exec: shared names, Go strings as bytes, the functions of the package
--     `strings`, maps as association lists, and errors and the end of the process as outcomes.
--
-- Loops are recursion on lists. Only the printing of decimals runs on fuel: one more round than the
-- number, which is enough as each round divides it by ten. A Go map is ranged over in the order of
-- its list, so that a theorem about every list is one about every order. A nil pointer that is read,
-- a panic and klog.Fatalf are the outcome `crash` (or `none`, where it is said).
--
-- Parameters: the container runtime, containerd's snapshotter and client, the store of
-- containers/storage, the CRI image service, reference.ParseDockerRef, the file system, the API
-- server's answers, the informer's index, running a command, the list of processes, net/url, pflag,
-- and the codecs of JSON and TOML.
--
-- Not modelled: the connection to containerd, umount in the host's namespace, metrics,
-- the CRI connection, the loop of the gRPC server, log flags, and the templates of the installer's
-- manifests. They are I/O, text or calls of libraries.
pub mod Base
pub mod Text
pub mod Strings
pub mod Dict
pub mod Exec
pub mod Backend
pub mod Secret
pub mod RemoteImageAsync
pub mod RemoteImage
pub mod Csi
pub mod Endpoint
pub mod Install
pub mod Driver
