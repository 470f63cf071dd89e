-- ===== src/Backend/Containerd/Service/Listing.antt =====
-- The driver starts over containerd: what ListSnapshots gives is what the restart relies on.
use container_image_csi_driv.Base.{
  ◌≡◌, ◌≢◌, refl, sym, ◌∙◌, inl, inr, Bool, true, false, List, [], ◌∷◌, Option, none, some,
  some-injective, arith, is_empty, All, Bool-cases,
}
use container_image_csi_driv.Text.{Text, Text-eq}
use container_image_csi_driv.Dict.{get, has, put, Distinct}
use container_image_csi_driv.Exec.{ok}
use container_image_csi_driv.Backend.Metadata.{
  TargetSet, SnapshotMetadata, get_snapshot_key, get_targets, set_snapshot_key, set_targets,
}
use container_image_csi_driv.Backend.Containerd.{Info, Labels, list_snapshot, scan_labels}
use container_image_csi_driv.Backend.Containerd.Labels.{Known, Scanned, scan-Scanned}
use container_image_csi_driv.Backend.Containerd.Targets.{labelled}
use container_image_csi_driv.Backend.Containerd.Service.{list_infos}

-- What the list says of one snapshot: nothing, if it has no target, or its name and its targets.
abbrev pub Shown : Info → Option SnapshotMetadata → Type 0
Shown i none = (u : Text) → labelled i.labels u ≡ false
Shown i (some m) =
    (get_snapshot_key m ≡ some i.name)
    × ((ts : TargetSet) × (get_targets m ≡ some ts)
        × Distinct ts
        × ((u : Text) → has u ts ≡ labelled i.labels u))

-- What it says of several, in their order.
abbrev pub Reads : List Info → List SnapshotMetadata → Type 0
Reads [] ms = ms ≡ []
Reads (i ∷ infos) ms =
    (o : Option SnapshotMetadata) × (rest : List SnapshotMetadata) × Shown i o
    × Reads infos rest
    × (ms ≡ elim o [ none ↦ rest | some m ↦ m ∷ rest ])

listed_of : Text → TargetSet → SnapshotMetadata
listed_of name ts = set_targets ts (set_snapshot_key name [])

listed_of-Shown :
    (i : Info) (ts : TargetSet)
    → Distinct ts
    → ((u : Text) → has u ts ≡ labelled i.labels u)
    → Shown i (some (listed_of i.name ts))
unfolding listed_of get_snapshot_key get_targets set_snapshot_key set_targets put get
listed_of-Shown i ts once same = (refl, (ts, refl, once, same))

empty-labelled : (labels : Labels) (u : Text) → is_empty labels ≡ true → labelled labels u ≡ false
unfolding get
empty-labelled [] u e = refl
empty-labelled (x ∷ labels) u e = absurd cc

empty-has : (ts : TargetSet) (u : Text) → is_empty ts ≡ true → has u ts ≡ false
unfolding get
empty-has [] u e = refl
empty-has (x ∷ ts) u e = absurd cc

module _ (is_named : Text → Bool) where
  Scanned-Shown :
      (i : Info)
      → is_empty i.labels ≡ false
      → Scanned is_named i.name i.labels [] (scan_labels is_named i.name i.labels [])
      → (o : Option SnapshotMetadata) × (list_snapshot is_named i ≡ some o) × Shown i o
  unfolding list_snapshot listed_of get
  Scanned-Shown i filled (ts, e, h, once) = elim (Bool-cases (is_empty ts)) [
    | inl empty ↦ (none, rw (filled, e, empty) refl, λ u. ground (arith, h u, empty-has ts u empty))
    | inr some_found ↦ (
      some (listed_of i.name ts),
      rw (filled, e, some_found) refl,
      listed_of-Shown i ts (once tt) (λ u. ground (arith, h u)),
    )
  ]

  entry-Shown :
      (i : Info)
      → All Known i.labels
      → (o : Option SnapshotMetadata) × (list_snapshot is_named i ≡ some o) × Shown i o
  unfolding list_snapshot
  entry-Shown i known = elim (Bool-cases (is_empty i.labels)) [
    | inl empty ↦ (none, rw empty refl, λ u. empty-labelled i.labels u empty)
    | inr filled ↦ Scanned-Shown i filled (scan-Scanned is_named i.name i.labels [] known)
  ]

  -- The list of snapshots without labels of old versions does not panic, and reads their targets.
  pub list_infos-Reads :
      {S : Type 0} (infos : List Info) (s : S)
      → All (λ i. All Known i.labels) infos
      → (ms : List SnapshotMetadata) × (list_infos is_named infos s ≡ (ok ms, s)) × Reads infos ms
  unfolding list_infos
  list_infos-Reads [] s known = ([], refl, refl)
  list_infos-Reads (i ∷ infos) s known =
      let (o, e, shown) = entry-Shown i known.0 in
      let (rest, e', reads) = list_infos-Reads infos s known.1 in
      (elim o [ none ↦ rest | some m ↦ m ∷ rest ], rw (e, e') refl, (o, rest, shown, reads, refl))

-- A name that no snapshot has is the key of none in the list.
pub absent-Reads :
    (k : Text) (infos : List Info) (ms : List SnapshotMetadata)
    → Reads infos ms
    → All (λ i. i.name ≢ k) infos
    → All (λ m. get_snapshot_key m ≢ some k) ms
absent-Reads k [] ms e a = rw e tt
absent-Reads k (i ∷ infos) ms (none, rest, shown, reads, e) a =
    rw e (absent-Reads k infos rest reads a.1)
absent-Reads k (i ∷ infos) ms (some m, rest, shown, reads, e) a =
    rw e (λ h. a.0 (some-injective i.name k (sym shown.0 ∙ h)), absent-Reads k infos rest reads a.1)
