-- ===== src/Backend.antt =====
-- pkg/backend: the interface of a container runtime (runtime.go). The metadata of a snapshot,
-- the reference-counting mounter over the interface and two runtimes are in the modules below.
pub mod Crio
pub mod Metadata
pub mod Runtime
pub mod Mounter
pub mod Containerd
