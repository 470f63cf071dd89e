-- ===== src/Backend/Mounter/Samples.antt =====
-- The mounter's theorems at states of a runtime in memory.
use container_image_csi_driv.Base.{refl, sym, ◌≡◌, ◌≢◌, true}
use container_image_csi_driv.Text.{Text, codes, Text-eq, text_eq, ne_of_text_eq}
use container_image_csi_driv.Dict.{get, put, delete}
use container_image_csi_driv.Exec.{ok, ok-injective}
use container_image_csi_driv.Backend.Metadata.{create_snapshot_metadata, build_snapshot_metadata}
use container_image_csi_driv.Backend.Mounter.{mount, unmount, unref_ro_snapshot}
use container_image_csi_driv.Backend.Mounter.Contract.{Ends}
use container_image_csi_driv.Backend.Mounter.Invariant.{Inv}
use container_image_csi_driv.Backend.Mounter.Rollback.{Restored}
use container_image_csi_driv.Backend.Mounter.Volumes.{Mounted, mount_ro-Ends}
use container_image_csi_driv.Backend.Mounter.Unmounting.{SameCache}
use container_image_csi_driv.Backend.Mounter.Sharing.{
  StillHeld, unmount-keeps_others, unmount-mount,
}
use container_image_csi_driv.Backend.Mounter.Interleaving.{Reach, here, next, unrefers, Reach-Inv}
use container_image_csi_driv.Backend.Mounter.Life.{Good, Calls, no_calls, mounts, Calls-Good}
use container_image_csi_driv.Backend.Mounter.Disk.{
  disk_runtime, disk_laws, nginx, pod_a, pod_b, idle, idle-Inv, one_volume, two_volumes,
  two_volumes-Inv, mount_first,
}

mount_ro-Ends_example :
    Ends
      (λ _. Mounted disk_laws nginx pod_a idle)
      (λ _ s'. Restored idle s' × Inv disk_laws s')
      (mount disk_runtime (codes "v1") pod_a nginx true idle)
mount_ro-Ends_example = mount_ro-Ends disk_laws (codes "v1") pod_a nginx idle idle-Inv

pods_differ : pod_a ≢ pod_b
unfolding text_eq
pods_differ = ne_of_text_eq pod_a pod_b refl

unmount-keeps_others_example :
    Ends
      (λ _. StillHeld disk_laws pod_a two_volumes)
      (λ _. StillHeld disk_laws pod_a two_volumes)
      (unmount disk_runtime (codes "v2") pod_b two_volumes)
unfolding get text_eq
unmount-keeps_others_example =
    unmount-keeps_others disk_laws (codes "v2") pod_b pod_a two_volumes two_volumes-Inv (λ e. cc e)
      pods_differ refl

unmount-mount_example :
    Ends
      (λ _. Restored idle)
      (λ _. SameCache one_volume)
      (unmount disk_runtime (codes "v1") pod_a one_volume)
unmount-mount_example =
    unmount-mount disk_laws (codes "v1") (codes "v1") pod_a nginx idle one_volume idle-Inv
      mount_first

unrefer_both : Reach disk_laws two_volumes idle
unfolding unref_ro_snapshot get put delete text_eq create_snapshot_metadata build_snapshot_metadata
unrefer_both =
    next (next here (unrefers pod_b (ok true) refl tt)) (unrefers pod_a (ok true) refl tt)

Reach-Inv_example : Inv disk_laws idle
Reach-Inv_example = Reach-Inv disk_laws two_volumes-Inv unrefer_both

-- The only image here is the one of the samples.
abbrev Nginx : Text → Type 0
Nginx id = id ≡ nginx.name

not_image : Nginx (codes "v1") → ⊥
not_image e = cc e

idle-Good : Good disk_laws Nginx idle
unfolding get
idle-Good = record { inv = idle-Inv; keys = λ k there. absurd (cc there) }

mount_once : Calls disk_laws Nginx idle one_volume
mount_once =
    mounts no_calls (codes "v1") pod_a nginx true (ok tt) not_image (λ id e. sym (ok-injective e))
      mount_first tt

Calls-Good_example : Good disk_laws Nginx one_volume
Calls-Good_example = Calls-Good disk_laws Nginx idle-Good mount_once
