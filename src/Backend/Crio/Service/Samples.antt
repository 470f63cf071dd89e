-- ===== src/Backend/Crio/Service/Samples.antt =====
-- The storage in memory as a container runtime.
use container_image_csi_driv.Base.{◌≡◌, is_some}
use container_image_csi_driv.Text.{Text, Text-eq}
use container_image_csi_driv.Dict.{get}
use container_image_csi_driv.Backend.Runtime.{RuntimeLaws}
use container_image_csi_driv.Backend.Crio.Service.{crio_runtime}
use container_image_csi_driv.Backend.Crio.Service.Laws.{recorded_in}
use container_image_csi_driv.Backend.Crio.Service.Memory.{
  Containers, memory_store, memory_storage, memory_storage_laws,
}
use container_image_csi_driv.Backend.Crio.Service.Refinement.{crio-Refines}

crio-Refines_example :
    (met : RuntimeLaws (crio_runtime memory_storage)) × ((s : Containers) (j : Text)
      → (met.recorded s j ≡ recorded_in memory_store (get j s))
        × (met.present s j ≡ is_some (get j s)))
crio-Refines_example = crio-Refines memory_storage_laws
