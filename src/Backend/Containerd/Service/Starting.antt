-- ===== src/Backend/Containerd/Service/Starting.antt =====
-- The cache that the driver starts with over containerd.
use container_image_csi_driv.Base.{
  ◌≡◌, ◌≢◌, refl, sym, ap, subst, ◌∙◌, ◌⊎◌, inl, inr, Bool, true, false, List, [], ◌∷◌, none, some,
  some-injective, All, All-imp, Bool-cases,
}
use container_image_csi_driv.Text.{Text, Text-eq, text_eq, text_eq_iff, ne_of_text_eq}
use container_image_csi_driv.Dict.{has}
use container_image_csi_driv.Exec.{Outcome, ok, err, crash, continue}
use container_image_csi_driv.Backend.Metadata.{
  TargetSet, SnapshotMetadata, get_snapshot_key, get_targets,
}
use container_image_csi_driv.Backend.Mounter.Contract.{Ends}
use container_image_csi_driv.Backend.Mounter.Restart.{build_snapshot_cache_or_die}
use container_image_csi_driv.Backend.Mounter.Restart.Loading.{Listed}
use container_image_csi_driv.Backend.Mounter.Restart.Rebuilt.{
  Apart, AllListed, Rest, Rebuilt, empty_cache, build_snapshot_cache-Rebuilt,
}
use container_image_csi_driv.Backend.Containerd.{Info}
use container_image_csi_driv.Backend.Containerd.Labels.{Known}
use container_image_csi_driv.Backend.Containerd.Targets.{recorded_of}
use container_image_csi_driv.Backend.Containerd.Service.{
  Service, list_infos, list_snapshots, containerd_runtime,
}
use container_image_csi_driv.Backend.Containerd.Service.Laws.{ServiceLaws, NamesApart, recorded}
use container_image_csi_driv.Backend.Containerd.Service.Refinement.{containerd_laws}
use container_image_csi_driv.Backend.Containerd.Service.Listing.{
  Shown, Reads, list_infos-Reads, absent-Reads,
}

module _ {service : Service} (laws : ServiceLaws service) (mounted : Text → Bool)
    (owner : Text → Text) where
  open service use {State}
  open laws use {info}

  -- No snapshot has labels of the driver but those of targets, as old versions wrote.
  abbrev pub NoneOld : State → Type 0
  NoneOld s = (k : Text) (i : Info) → info s k ≡ some i → All Known i.labels

  -- At every mount point among its targets a snapshot is the one that is mounted there.
  abbrev pub AllOwned : State → Type 0
  AllOwned s = (k t : Text) → recorded laws s k t ≡ true → mounted t ≡ true → owner t ≡ k

  abbrev ListedHere : State → Text → TargetSet → Type 0
  ListedHere s = Listed (containerd_laws laws) mounted owner (empty_cache s)

  module _ (s : State) (owned : AllOwned s) where
    -- What is shown of a snapshot in the table is true of it.
    Shown-Listed :
        (i : Info) (m : SnapshotMetadata)
        → info s i.name ≡ some i
        → Shown i (some m)
        → (k : Text) (ts : TargetSet) → get_snapshot_key m ≡ some k
        → get_targets m ≡ some ts
        → ListedHere s k ts
    unfolding containerd_laws
    Shown-Listed i m there (name, (found, targets, once, same)) k ts key ts_of =
        subst (ListedHere s k) (some-injective found ts (sym targets ∙ ts_of)) (
          subst (λ j. ListedHere s j found) (some-injective i.name k (sym name ∙ key))
            (let e : (u : Text) → recorded laws s i.name u ≡ has u found =
                λ u. ap (λ o. recorded_of o u) there ∙ sym (same u) in
              record { once = once; recorded_as = e; owned = λ t h. owned i.name t (e t ∙ h) }))

    Reads-AllListed :
        (infos : List Info) (ms : List SnapshotMetadata)
        → Reads infos ms
        → All (λ i. info s i.name ≡ some i) infos
        → AllListed (containerd_laws laws) mounted owner (empty_cache s) ms
    Reads-AllListed [] ms e there = rw e tt
    Reads-AllListed (i ∷ infos) ms (none, rest, shown, reads, e) there =
        rw e (Reads-AllListed infos rest reads there.1)
    Reads-AllListed (i ∷ infos) ms (some m, rest, shown, reads, e) there =
        rw e (Shown-Listed i m there.0 shown, Reads-AllListed infos rest reads there.1)

    Reads-Apart :
        (infos : List Info) (ms : List SnapshotMetadata)
        → Reads infos ms
        → NamesApart infos
        → Apart (containerd_laws laws) mounted owner ms
    Reads-Apart [] ms e apart = rw e tt
    Reads-Apart (i ∷ infos) ms (none, rest, shown, reads, e) apart =
        rw e (Reads-Apart infos rest reads apart.1)
    Reads-Apart (i ∷ infos) ms (some m, rest, shown, reads, e) apart = rw e (
      keyed-Apart rest (absent-Reads i.name infos rest reads apart.0),
      Reads-Apart infos rest reads apart.1,
    )
      where
        keyed-Apart :
            (ns : List SnapshotMetadata)
            → All (λ n. get_snapshot_key n ≢ some i.name) ns
            → All (λ n. (k : Text) → get_snapshot_key m ≡ some k → get_snapshot_key n ≢ some k) ns
        keyed-Apart [] a = tt
        keyed-Apart (n ∷ ns) a = (λ k key h. a.0 (h ∙ sym key ∙ shown.0), keyed-Apart ns a.1)

    first-absent :
        (i : Info) (j u : Text) (infos : List Info) (ms : List SnapshotMetadata)
        → Reads (i ∷ infos) ms
        → i.name ≡ j
        → info s j ≡ some i
        → All (λ m. get_snapshot_key m ≢ some j) ms
        → recorded laws s j u ≡ false
    first-absent i j u infos ms (none, rest, shown, reads, e) here there others =
        ap (λ o. recorded_of o u) there ∙ shown u
    first-absent i j u infos ms (some m, rest, shown, reads, e) here there others =
        let a = subst (All (λ n. get_snapshot_key n ≢ some j)) e others in
        absurd (a.0 (shown.0 ∙ ap some here))

    rest-absent :
        (i : Info) (j : Text) (infos : List Info) (ms : List SnapshotMetadata)
        → (reads : Reads (i ∷ infos) ms) → All (λ m. get_snapshot_key m ≢ some j) ms
        → All (λ m. get_snapshot_key m ≢ some j) reads.1
    rest-absent i j infos ms (none, rest, shown, reads, e) others =
        subst (All (λ n. get_snapshot_key n ≢ some j)) e others
    rest-absent i j infos ms (some m, rest, shown, reads, e) others =
        (subst (All (λ n. get_snapshot_key n ≢ some j)) e others).1

    -- A snapshot that is not in the list is not among those visited, or has no target.
    Reads-absent :
        (j u : Text) (infos : List Info) (ms : List SnapshotMetadata)
        → Reads infos ms
        → All (λ i. info s i.name ≡ some i) infos
        → All (λ m. get_snapshot_key m ≢ some j) ms
        → All (λ i. i.name ≢ j) infos ⊎ (recorded laws s j u ≡ false)
    Reads-absent j u [] ms reads there others = inl tt
    Reads-absent j u (i ∷ infos) ms reads there others = elim (Bool-cases (text_eq i.name j)) [
      | inl here ↦ inr (
          let e = (text_eq_iff i.name j).0 here in
          first-absent i j u infos ms reads e (subst (λ k. info s k ≡ some i) e there.0) others)
      | inr apart ↦
          elim (Reads-absent j u infos reads.1 reads.3 there.1
            (rest-absent i j infos ms reads others)) [
              | inl none_there ↦ inl (ne_of_text_eq i.name j apart, none_there)
              | inr free ↦ inr free
            ]
    ]

    Reads-Rest :
        (infos : List Info) (ms : List SnapshotMetadata)
        → Reads infos ms
        → All (λ i. info s i.name ≡ some i) infos
        → ((k : Text) → All (λ i. i.name ≢ k) infos → info s k ≡ none)
        → Rest (containerd_laws laws) mounted owner ms (empty_cache s)
    unfolding containerd_laws
    Reads-Rest infos ms reads there complete j u unloaded others =
        elim (Reads-absent j u infos ms reads there others) [
          | inl none_there ↦ ap (λ o. recorded_of o u) (complete j none_there)
          | inr free ↦ free
        ]

  abbrev Agree : List SnapshotMetadata → State → Type 0
  Agree ms t =
      Apart (containerd_laws laws) mounted owner ms
      × AllListed (containerd_laws laws) mounted owner (empty_cache t) ms
      × Rest (containerd_laws laws) mounted owner ms (empty_cache t)

  abbrev AllAgree : Outcome Text (List SnapshotMetadata) × State → Type 0
  AllAgree (ok ms, t) = Agree ms t
  AllAgree _ = Unit

  module _ (s : State) (none_old : NoneOld s) (owned : AllOwned s) where
    -- The table is as it was before the walk.
    abbrev SameTable : State → Type 0
    SameTable s' = (k : Text) → info s' k ≡ info s k

    walked-AllListed :
        (o : Outcome Text (List Info)) (s' : State)
        → SameTable s'
        → ((infos : List Info)
            → o ≡ ok infos
            → All (λ i. info s i.name ≡ some i) infos
              × NamesApart infos
              × ((k : Text) → All (λ i. i.name ≢ k) infos → info s k ≡ none))
        → (ms : List SnapshotMetadata) (t : State)
        → continue o s' (list_infos service.is_named) ≡ (ok ms, t)
        → Agree ms t
    walked-AllListed (ok infos) s' same visited ms t e =
        let (there, apart, complete) = visited infos refl in
        let known : All (λ i. All Known i.labels) infos =
          All-imp (λ i. info s i.name ≡ some i) (λ i. All Known i.labels)
            (λ i here. none_old i.name i here) infos there in
        let (found, shown, reads) = list_infos-Reads service.is_named infos s' known in
        let there' : All (λ i. info s' i.name ≡ some i) infos =
          All-imp (λ i. info s i.name ≡ some i) (λ i. info s' i.name ≡ some i)
            (λ i here. same i.name ∙ here) infos there in
        let owned' : AllOwned s' =
          λ k target h. owned k target (ap (λ o. recorded_of o target) (sym (same k)) ∙ h) in
        subst AllAgree (sym shown ∙ e) (
          Reads-Apart s' owned' infos found reads apart,
          Reads-AllListed s' owned' infos found reads there',
          Reads-Rest s' owned' infos found reads there' (λ k a. same k ∙ complete k a),
        )
    walked-AllListed (err x) s' same visited ms t e = absurd cc
    walked-AllListed crash s' same visited ms t e = absurd cc

    -- A driver that starts over a containerd that keeps the promises of its interfaces ends, or has a
    -- well-formed cache that agrees with the labels of the snapshots and gives each of its targets
    -- the snapshot that is mounted there, if no snapshot has labels of old versions and if, at the
    -- targets of a snapshot that are mount points, it is what is mounted.
    pub containerd-Rebuilt :
        Ends
          (λ _. Rebuilt (containerd_laws laws) mounted owner)
          (λ _ _. ⊥)
          (build_snapshot_cache_or_die (containerd_runtime service) mounted (empty_cache s))
    unfolding list_snapshots
    containerd-Rebuilt = build_snapshot_cache-Rebuilt (containerd_laws laws) mounted owner s (
        walked-AllListed (service.walk s).0 (service.walk s).1 (laws.walk_keeps s)
          (laws.walk_law s))
