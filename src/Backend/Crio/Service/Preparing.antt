-- ===== src/Backend/Crio/Service/Preparing.antt =====
-- The preparation of containers, as it shows in the targets of their metadata.
use mathlib.Core.Path.{fun_ext}
use container_image_csi_driv.Base.{
  ◌≡◌, refl, sym, subst, ap, ◌∙◌, Bool, true, false, [], ◌∷◌, Option, none, some, arith, ◌==◌,
  if◌then◌else◌, is_empty, Bool-cases, Option-cases, inl, inr, nat_eq, nat_beq_iff,
}
use container_image_csi_driv.Text.{Text, Text-eq, text_eq, text_eq_iff}
use container_image_csi_driv.Dict.{get}
use container_image_csi_driv.Exec.{Outcome, ok, err, crash}
use container_image_csi_driv.Backend.Metadata.{
  MetadataValue, SnapshotMetadata, metadata_key_targets, named_by, value_names, named_by_lem,
}
use container_image_csi_driv.Backend.Runtime.{Settles, no_targets}
use container_image_csi_driv.Backend.Runtime.Leaves.{Settles-map}
use container_image_csi_driv.Backend.Crio.{
  Container, failure, same_metadata, check_container, prepare_snapshot,
}
use container_image_csi_driv.Backend.Crio.Service.{Storage}
use container_image_csi_driv.Backend.Crio.Service.Laws.{StorageLaws, recorded_in}

Settles-failure :
    {E A B : Type 0} (o : Outcome E A) (x y z : B) → Settles o x y z → Settles (failure o) x y z
Settles-failure (ok a) x y z h = h
Settles-failure (err e) x y z h = h
Settles-failure crash x y z h = tt

module _ {storage : Storage} (laws : StorageLaws storage) where
  open storage use {store}

  abbrev pub recorded : store.State → Text → Text → Bool
  recorded s j = recorded_in store (store.container j s)

  same_metadata-get :
      (k : _) (v : MetadataValue) (m existed : SnapshotMetadata)
      → same_metadata store m existed ≡ true
      → get k m ≡ some v
      → store.deep_equal v (get k existed) ≡ true
  unfolding same_metadata get
  same_metadata-get k v [] existed same e = cc
  same_metadata-get k v ((j, w) ∷ m) existed same e =
      ground (arith, same_metadata-get k v m existed, nat_beq_iff j k)

  -- Metadata that is taken for the same has the same targets, where there were none.
  same_metadata-unnamed :
      (m existed : SnapshotMetadata) (u : Text)
      → same_metadata store m existed ≡ true
      → named_by existed u ≡ false
      → named_by m u ≡ false
  same_metadata-unnamed m existed u same unnamed =
      elim (Option-cases (get metadata_key_targets m)) [
        | inl absent ↦ named_by_lem m u ∙ rw absent refl
        | inr (v, found) ↦
            named_by_lem m u
            ∙ ap (λ o. value_names o u) found
            ∙ sym (
                laws.deep_equal_law v (get metadata_key_targets existed)
                  (same_metadata-get metadata_key_targets v m existed same found) u)
            ∙ sym (named_by_lem existed u)
            ∙ unnamed
      ]

  -- What a call did to the containers, as it shows in the targets.
  pub put-Settles :
      (o : Outcome store.Error Unit) (r s : store.State) (k : Text) (c : Option Container)
      (set : Text → Bool) (j : Text)
      → recorded_in store c ≡ set
      → Settles o
          (store.container j r)
          (if k == j then c else store.container j s)
          (store.container j s)
      → Settles (failure o) (recorded r j) (if k == j then set else recorded s j) (recorded s j)
  put-Settles o r s k c set j e law =
      Settles-failure o (recorded r j) (if k == j then set else recorded s j) (recorded s j) (
        Settles-map o (recorded_in store) (store.container j r)
          (if k == j then c else store.container j s) (store.container j s) (ground (arith, e)) refl
          law)

  pub encoded-recorded :
      (key image : Text) (m : SnapshotMetadata)
      → recorded_in store (some (record { id = key; image_id = image; metadata = store.encode m }))
        ≡ named_by m
  encoded-recorded key image m = rw (laws.decode_law m).0 (fun_ext (laws.decode_law m).1)

  module _ (image key : Text) (m : SnapshotMetadata) (s : store.State)
      (unnamed : (u : Text) → recorded s key u ≡ false) (j : Text) where
    abbrev named_there : Text → Bool
    named_there = if key == j then named_by m else recorded s j

    used :
        (c : Container)
        → store.container key s ≡ some c
        → is_empty c.metadata ≡ false
        → same_metadata store m (store.decode c.metadata).1 ≡ true
        → recorded s j ≡ named_there
    used c there filled same = elim (Bool-cases (text_eq key j)) [
      | inr other ↦ rw other refl
      | inl here ↦ rw here (
          fun_ext λ u.
            let e : recorded s key u ≡ named_by (store.decode c.metadata).1 u =
              ap (λ o. recorded_in store o u) there ∙ rw filled refl in
            ap (λ k. recorded s k u) (sym ((text_eq_iff key j).0 here))
            ∙ unnamed u
            ∙ sym (same_metadata-unnamed m (store.decode c.metadata).1 u same (sym e ∙ unnamed u)))
    ]

    found-Settles :
        (c : Container)
        → store.container key s ≡ some c
        → Settles (check_container store image (some m) c) (recorded s j) named_there (recorded s j)
    unfolding check_container
    found-Settles c there = elim (Bool-cases (text_eq c.image_id image)) [
      | inr other ↦ rw other refl
      | inl same_image ↦ rw same_image (elim (Bool-cases (is_empty c.metadata)) [
        | inl empty ↦ rw empty refl
        | inr filled ↦ rw filled (elim (Bool-cases (store.decode c.metadata).0) [
          | inl decodes ↦ rw decodes refl
          | inr broken ↦
              rw broken (elim (Bool-cases (same_metadata store m (store.decode c.metadata).1)) [
                | inr differ ↦ rw differ refl
                | inl same ↦ rw same (used c there filled same)
              ])
        ])
      ])
    ]

    pub prepare_ro-Settles :
        let r = prepare_snapshot store image key (some m) true s in
        Settles r.0 (recorded r.1 j) named_there (recorded s j)
    unfolding prepare_snapshot
    prepare_ro-Settles = elim (Option-cases (store.container key s)) [
      | inr (c, there) ↦ rw (there, prepare_snapshot) (found-Settles c there)
      | inl absent ↦
          let r = store.create_container key image (store.encode m) true s in
          rw (absent, prepare_snapshot)
            (put-Settles r.0 r.1 s key _ (named_by m) j (encoded-recorded key image m)
              (laws.create_law key image (store.encode m) true s j))
    ]

  plain-Settles :
      (image key : Text) (s : store.State) (c : Container) (j : Text)
      → Settles (check_container store image none c) (recorded s j) (recorded s j) (recorded s j)
  unfolding check_container
  plain-Settles image key s c j = elim (Bool-cases (text_eq c.image_id image)) [
    | inl same ↦ rw same refl
    | inr other ↦ rw other refl
  ]

  pub prepare_rw-Settles :
      (image key : Text) (s : store.State) (j : Text)
      → let r = prepare_snapshot store image key none false s in
        Settles r.0 (recorded r.1 j) (recorded s j) (recorded s j)
  unfolding prepare_snapshot
  prepare_rw-Settles image key s j = elim (Option-cases (store.container key s)) [
    | inr (c, there) ↦ rw (there, prepare_snapshot) (plain-Settles image key s c j)
    | inl absent ↦
        let r = store.create_container key image [] false s in
        let same : (if key == j then no_targets else recorded s j) ≡ recorded s j =
          ground (arith, text_eq_iff key j, ap (recorded_in store) absent) in
        rw (absent, prepare_snapshot)
          (subst (λ set. Settles (failure r.0) (recorded r.1 j) set (recorded s j)) same
            (put-Settles r.0 r.1 s key _ no_targets j refl
              (laws.create_law key image [] false s j)))
  ]
