-- ===== src/Backend/Containerd/Service/Preparing.antt =====
-- The preparation of snapshots: one that is there is used or refused, otherwise it is created.
use mathlib.Core.Path.{fun_ext}
use container_image_csi_driv.Base.{
  ◌≡◌, refl, sym, ap, ◌∙◌, Bool, true, false, ◌&&◌, Option, none, some, arith, ◌==◌, if◌then◌else◌,
  Bool-cases, inl, inr, ◌⊎◌,
}
use container_image_csi_driv.Text.{Text, Text-eq, text_eq, text_eq_iff}
use container_image_csi_driv.Dict.{has}
use container_image_csi_driv.Exec.{Exec, Outcome, ok, err, crash, continue}
use container_image_csi_driv.Backend.Metadata.{TargetSet, SnapshotMetadata, get_targets, named_by}
use container_image_csi_driv.Backend.Runtime.{Settles}
use container_image_csi_driv.Backend.Containerd.{
  Labels, Kind, view, active, Info, usable, different, find_snapshot, same_kind, same_labels,
  with_targets,
}
use container_image_csi_driv.Backend.Containerd.Service.{
  Service, default_snapshot_labels, attempted, settled, unless_found, prepare_read_only_snapshot,
  prepare_rw_snapshot,
}
use container_image_csi_driv.Backend.Containerd.Service.Laws.{
  ServiceLaws, recorded, put-Settles, named_by-some,
}
use container_image_csi_driv.Backend.Containerd.Targets.{
  labelled, recorded_of, labelled-new, labelled-default, labelled-found,
}

module _ {service : Service} (laws : ServiceLaws service) where
  open service use {State, stat}
  open laws use {info}

  module _ (key parent : Text) (kind : Kind) (labels : Labels) (create : Exec State Text Unit)
      (s : State) (done : Text → Text → Bool)
      (taken : (i : Info)
        → info s key ≡ some i
        → same_labels i.labels labels ≡ true
        → (j : Text) → recorded laws s j ≡ done j)
      (new : (s' : State)
        → ((j : Text) → info s' j ≡ info s j)
        → (j : Text)
        → Settles (create s').0 (recorded laws (create s').1 j) (done j) (recorded laws s j)) where
    found-cases :
        (i : Info)
        → ((find_snapshot (some i) parent kind labels ≡ usable)
            × (same_labels i.labels labels ≡ true))
          ⊎ (find_snapshot (some i) parent kind labels ≡ different)
    unfolding find_snapshot
    found-cases i = elim (Bool-cases (same_kind i.kind kind && text_eq i.parent parent)) [
      | inr other ↦ rw other (inr refl)
      | inl alike ↦ rw alike (elim (Bool-cases (same_labels i.labels labels)) [
        | inl same ↦ rw same (inl (refl, refl))
        | inr differ ↦ rw differ (inr refl)
      ])
    ]

    answer-Settles :
        (o : Outcome Text Info) (s' : State)
        → ((i : Info) → o ≡ ok i → info s key ≡ some i)
        → ((j : Text) → info s' j ≡ info s j)
        → (j : Text)
        → let a = attempted (o, s') in
          let r =
            continue a.0 a.1
              (λ found. settled service (find_snapshot found parent kind labels) create) in
          Settles r.0 (recorded laws r.1 j) (done j) (recorded laws s j)
    unfolding find_snapshot
    answer-Settles (ok i) s' there keeps j = elim (found-cases i) [
      | inl (found, same) ↦ rw found (ap recorded_of (keeps j) ∙ taken i (there i refl) same j)
      | inr found ↦ rw found (ap recorded_of (keeps j))
    ]
    answer-Settles (err e) s' there keeps j = new s' keeps j
    answer-Settles crash s' there keeps j = tt

    unless_found-Settles :
        (j : Text)
        → let r = unless_found service key parent kind labels create s in
          Settles r.0 (recorded laws r.1 j) (done j) (recorded laws s j)
    unfolding unless_found
    unless_found-Settles j =
        answer-Settles (stat key s).0 (stat key s).1 (λ i e. (laws.stat_law key s i e).0)
          (laws.stat_keeps key s) j

  module _ (image_id key : Text) (m : SnapshotMetadata) (s : State)
      (unnamed : (u : Text) → recorded laws s key u ≡ false) (j : Text) where
    abbrev named_there : Text → Bool
    named_there = if key == j then named_by m else recorded laws s j

    module _ (ts : TargetSet) (e : get_targets m ≡ some ts) where
      abbrev labels : Labels
      labels = with_targets (default_snapshot_labels (service.now s)) ts

      taken-named :
          (i : Info)
          → info s key ≡ some i
          → same_labels i.labels labels ≡ true
          → (k : Text) → recorded laws s k ≡ (if key == k then named_by m else recorded laws s k)
      taken-named i there same k = elim (Bool-cases (text_eq key k)) [
        | inr other ↦ rw other refl
        | inl here ↦ rw here (
            fun_ext λ u. ground (
              arith,
              (text_eq_iff key k).0 here,
              unnamed u,
              ap (λ o. recorded_of o u) there,
              named_by-some laws m ts u e,
              labelled-found u (service.now s) ts i.labels same,
              Bool-cases (has u ts),
            ))
      ]

      created-named :
          (s' : State)
          → ((k : Text) → info s' k ≡ info s k)
          → (k : Text)
          → let r = service.view_snapshot key image_id labels s' in
            Settles r.0
              (recorded laws r.1 k)
              (if key == k then named_by m else recorded laws s k)
              (recorded laws s k)
      created-named s' keeps k =
          let r = service.view_snapshot key image_id labels s' in
          put-Settles laws r.0 r.1 s' s key _ (named_by m) k
            (fun_ext λ u. labelled-new u (service.now s) ts ∙ sym (named_by-some laws m ts u e))
            (keeps k) (laws.view_law key image_id labels s' k)

    pub prepare_ro-Settles :
        (o : Option TargetSet)
        → get_targets m ≡ o
        → let r = prepare_read_only_snapshot service image_id key (some m) s in
          Settles r.0 (recorded laws r.1 j) named_there (recorded laws s j)
    unfolding prepare_read_only_snapshot
    prepare_ro-Settles none e = rw e tt
    prepare_ro-Settles (some ts) e = rw e (
        unless_found-Settles key image_id view (labels ts e)
          (service.view_snapshot key image_id (labels ts e)) s
          (λ k. if key == k then named_by m else recorded laws s k) (taken-named ts e)
          (created-named ts e) j)

  rw_created :
      (key image_id : Text) (labels : Labels) (s s' : State) (o : Outcome Text Unit) (r : State)
      (k : Text)
      → info s' k ≡ info s k
      → ((u : Text) → labelled labels u ≡ false)
      → (o ≡ ok tt → info s' key ≡ none)
      → Settles o
          (info r k)
          (if key == k
            then some (record { name = key; kind = active; parent = image_id; labels = labels })
            else info s' k)
          (info s' k)
      → Settles o (recorded laws r k) (recorded laws s k) (recorded laws s k)
  rw_created key image_id labels s s' (ok tt) r k keeps plain free law =
      elim (Bool-cases (text_eq key k)) [
        | inr other ↦ ap recorded_of (rw other at law ∙ keeps)
        | inl here ↦
            ap recorded_of (rw here at law)
            ∙ fun_ext (λ u. plain u)
            ∙ sym (ap recorded_of (sym keeps ∙ rw ((text_eq_iff key k).0 here) at (free refl)))
      ]
  rw_created key image_id labels s s' (err e) r k keeps plain free law =
      ap recorded_of (law ∙ keeps)
  rw_created key image_id labels s s' crash r k keeps plain free law = tt

  pub prepare_rw-Settles :
      (image_id key : Text) (s : State) (j : Text)
      → let r = prepare_rw_snapshot service image_id key none s in
        Settles r.0 (recorded laws r.1 j) (recorded laws s j) (recorded laws s j)
  unfolding prepare_rw_snapshot
  prepare_rw-Settles image_id key s j =
      let labels = default_snapshot_labels (service.now s) in
      unless_found-Settles key image_id active labels (service.prepare_snapshot key image_id labels)
        s (recorded laws s) (λ i there same k. refl)
        (λ s' keeps k.
          let r = service.prepare_snapshot key image_id labels s' in
          rw_created key image_id labels s s' r.0 r.1 k (keeps k)
            (λ u. labelled-default u (service.now s)) (laws.prepare_free key image_id labels s')
            (laws.prepare_law key image_id labels s' k))
        j
