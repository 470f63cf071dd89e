-- ===== src/Csi/Node/Guards.antt =====
-- What the guards of NodePublishVolume let through.
use container_image_csi_driv.Base.{
  ◌≡◌, refl, Bool, true, false, Option, none, some, inl, inr, arith, is_empty, Bool-cases, subst,
}
use container_image_csi_driv.Exec.{Outcome, ok, err, crash}
use container_image_csi_driv.Csi.Requests.{
  AccessMode, VolumeCapability, NodePublishVolumeRequest, Status,
}
use container_image_csi_driv.Csi.Node.{
  check_mode, check_capability, check_request, is_block, is_ephemeral, is_read_only,
}

-- What a request has that passes the guards.
pub record Accepted (req : NodePublishVolumeRequest) (c : VolumeCapability) : Type 0 where
  pub has_volume_id : is_empty req.volume_id ≡ false
  pub has_target_path : is_empty req.target_path ≡ false
  pub has_capability : req.volume_capability ≡ some c
  pub no_block : is_block c.access_type ≡ false
  pub has_context : is_empty req.volume_context ≡ false
  -- No volume but an ephemeral one is mounted for writing.
  pub read_only : is_ephemeral req ≡ false → is_read_only req.readonly c.access_mode ≡ ok true

accept_mode :
    (ephemeral readonly : Bool) (mode : Option AccessMode)
    → check_mode ephemeral mode ≡ ok tt
    → ephemeral ≡ false
    → is_read_only readonly mode ≡ ok true
unfolding check_mode is_read_only
accept_mode true readonly mode e f = absurd cc
accept_mode false true mode e f = refl
accept_mode false false none e f = absurd cc
accept_mode false false (some mode) e f = ground arith

passed_mode :
    (c got : VolumeCapability) (o : Outcome Status Unit)
    → (elim o as (λ _. Outcome Status VolumeCapability) [
      | ok _ ↦ ok c
      | err e ↦ err e
      | crash ↦ crash
    ])
      ≡ ok got
    → (o ≡ ok tt) × (c ≡ got)
passed_mode c got (ok _) h = (refl, cc)
passed_mode c got (err e) h = absurd cc
passed_mode c got crash h = absurd cc

module _ (req : NodePublishVolumeRequest) (got : VolumeCapability) where
  passed_guards :
      (c : Option VolumeCapability)
      → req.volume_capability ≡ c
      → is_empty req.volume_id ≡ false
      → is_empty req.target_path ≡ false
      → check_capability req c ≡ ok got
      → Accepted req got
  unfolding check_capability
  passed_guards none given i t h = absurd cc
  passed_guards (some c) given i t h = elim (Bool-cases (is_block c.access_type)) [
    | inl e ↦ absurd (cc (rw e at h))
    | inr no_block ↦ elim (Bool-cases (is_empty req.volume_context)) [
      | inl e ↦ absurd (cc (rw (no_block, e) at h))
      | inr filled ↦
          let (mode, same) =
            passed_mode c got (check_mode (is_ephemeral req) c.access_mode)
              (rw (no_block, filled) at h) in
          subst (Accepted req) same (record {
            has_volume_id = i;
            has_target_path = t;
            has_capability = given;
            no_block = no_block;
            has_context = filled;
            read_only = accept_mode (is_ephemeral req) req.readonly c.access_mode mode;
          })
    ]
  ]

  -- A request that passes the guards names a volume and a target, has a capability that is no block
  -- device and a context, and is mounted read-only if its volume is not ephemeral.
  pub check_request-Accepted : check_request req ≡ ok got → Accepted req got
  unfolding check_request
  check_request-Accepted h = elim (Bool-cases (is_empty req.volume_id)) [
    | inl e ↦ absurd (cc (rw e at h))
    | inr i ↦ elim (Bool-cases (is_empty req.target_path)) [
      | inl e ↦ absurd (cc (rw (i, e) at h))
      | inr t ↦ passed_guards req.volume_capability refl i t (rw (i, t) at h)
    ]
  ]
