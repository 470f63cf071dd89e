-- ===== src/Backend/Mounter/Contract.antt =====
-- What `refROSnapshot` and `unrefROSnapshot` do on each outcome, as relations between the state
-- before and the state after. Sets of targets are compared by membership.
use container_image_csi_driv.Base.{
  ◌<◌, ◌≡◌, refl, ap, ◌⊎◌, List, Bool, true, false, [], ◌∷◌, none, some, inl, inr, arith, ◌==◌, ltb,
  if◌then◌else◌, length, is_empty, nat_eq, Bool-cases,
}
use container_image_csi_driv.Text.{Text, Text-eq, text_eq_iff}
use container_image_csi_driv.Dict.{get, has, put, delete, get-put, get-delete}
use container_image_csi_driv.Exec.{Outcome, ok, err, crash, continue, modify, pure, ◌>>◌}
use container_image_csi_driv.Backend.Metadata.{
  TargetSet, named_by, create_snapshot_metadata, build_snapshot_metadata, shared_metadata,
  copy_targets-create, has-shared_metadata, targets_in-create,
}
use container_image_csi_driv.Backend.Runtime.{
  ContainerRuntimeMounter, RuntimeLaws, Settles, no_targets,
}
use container_image_csi_driv.Backend.Mounter.{
  SnapshotMounter, key_of, targets_of, add_target, set_key_of, set_targets_of, drop_key_of,
  drop_targets_of, die_on_err, ref_ro_snapshot, unref_ro_snapshot,
}

-- `P` of a normal return, `Q` of an error; a crash leaves no state to speak of.
abbrev pub Ends : {S E A : Type 0} → (A → S → Type 0) → (E → S → Type 0) → Outcome E A × S → Type 0
Ends P Q (ok a, s) = P a s
Ends P Q (err e, s) = Q e s
Ends P Q (crash, s) = Unit

pub Ends-map :
    {S E A : Type 0} {P P' : A → S → Type 0} {Q Q' : E → S → Type 0} (r : Outcome E A × S)
    → ((a : A) (s : S) → P a s → P' a s)
    → ((e : E) (s : S) → Q e s → Q' e s)
    → Ends P Q r
    → Ends P' Q' r
Ends-map (ok a, s) p q h = p a s h
Ends-map (err e, s) p q h = q e s h
Ends-map (crash, s) p q h = tt

list-cases {ℓ} : {A : Type ℓ} (xs : List A) → (xs ≡ []) ⊎ (is_empty xs ≡ false)
list-cases [] = inl refl
list-cases (x ∷ xs) = inr refl

length-cases {ℓ} : {A : Type ℓ} (xs : List A) → (xs ≡ []) ⊎ (ltb 0 (length xs) ≡ true)
length-cases [] = inl refl
length-cases (x ∷ xs) = inr (ground arith)

module _ {rt : ContainerRuntimeMounter} (laws : RuntimeLaws rt) where
  open laws use {recorded}

  -- Whether the runtime's metadata of snapshot `j` names `u`.
  abbrev pub names : rt.State → Text → Text → Bool
  names r j u = recorded r j u

  pub record Unchanged (s s' : SnapshotMounter rt.State) : Type 0 where
    pub keys : s'.target_ro_snapshot_map ≡ s.target_ro_snapshot_map
    pub sets : s'.ro_snapshot_targets_map ≡ s.ro_snapshot_targets_map
    pub records : (j : Text) → recorded s'.runtime j ≡ recorded s.runtime j

  -- `target` now holds the snapshot `key`, in the two maps and in the runtime's metadata.
  pub record Referred (target key : Text) (s s' : SnapshotMounter rt.State) : Type 0 where
    pub free : key_of target s ≡ []
    pub keys :
        (u : Text)
        → get u s'.target_ro_snapshot_map
          ≡ (if target == u then some key else get u s.target_ro_snapshot_map)
    pub sets :
        (j : Text)
        → get j s'.ro_snapshot_targets_map ≡ (
            if key == j
            then some (put target tt (targets_of key s))
            else get j s.ro_snapshot_targets_map)
    pub records :
        (j u : Text)
        → names s'.runtime j u ≡ (
            if key == j
            then (if target == u then true else has u (targets_of key s))
            else names s.runtime j u)

  module _ (target key : Text) (s : SnapshotMounter rt.State) (free : key_of target s ≡ []) where
    shared-Ends :
        (o : Outcome rt.Error Unit) (r : rt.State)
        → ((j : Text)
            → Settles o
                (recorded r j)
                (if key == j
                  then named_by (shared_metadata target (targets_of key s))
                  else recorded s.runtime j)
                (recorded s.runtime j))
        → Ends
            (λ _. Referred target key s)
            (λ _. Unchanged s)
            (continue o
              (record s { runtime = r })
              (λ _. modify (add_target target key) >> modify (set_key_of target key)))
    shared-Ends (ok _) r law = record {
      free = free;
      keys = λ u. get-put target u key s.target_ro_snapshot_map;
      sets = λ j. get-put key j (put target tt (targets_of key s)) s.ro_snapshot_targets_map;
      records = λ j u.
          ground (arith, ap (λ f. f u) (law j), has-shared_metadata u target (targets_of key s));
    }
    shared-Ends (err e) r law = record { keys = refl; sets = refl; records = law }
    shared-Ends crash r law = tt

    created-Ends :
        (image_id : Text) (o : Outcome rt.Error Unit) (r : rt.State)
        → targets_of key s ≡ []
        → ((j : Text)
            → Settles o
                (recorded r j)
                (if key == j
                  then named_by (create_snapshot_metadata target)
                  else recorded s.runtime j)
                (recorded s.runtime j))
        → let m = continue o (record s { runtime = r }) (λ _. modify (set_targets_of key [])) in
          Ends
            (λ _. Referred target key s)
            (λ _. Unchanged s)
            (continue m.0 m.1
              (λ _. modify (add_target target key) >> modify (set_key_of target key)))
    unfolding get
    created-Ends image_id (ok _) r none_yet law = record {
      free = free;
      keys = λ u. get-put target u key s.target_ro_snapshot_map;
      sets = λ j. ground (
        arith,
        get-put key j (put target tt []) (put key [] s.ro_snapshot_targets_map),
        get-put key j [] s.ro_snapshot_targets_map,
        get-put key key [] s.ro_snapshot_targets_map,
        text_eq_iff key key,
      );
      records = λ j u. ground (arith, ap (λ f. f u) (law j), targets_in-create target);
    }
    created-Ends image_id (err e) r none_yet law = record {
      keys = refl;
      sets = refl;
      records = law;
    }
    created-Ends image_id crash r none_yet law = tt

  -- A snapshot that the cache has no target of has none in the runtime.
  abbrev pub Fresh : Text → SnapshotMounter rt.State → Type 0
  Fresh key s = targets_of key s ≡ [] → (u : Text) → names s.runtime key u ≡ false

  -- A reference is counted, or refused with nothing changed.
  pub ref-Ends :
      (target image_id key : Text) (s : SnapshotMounter rt.State)
      → Fresh key s
      → Ends
          (λ _. Referred target key s)
          (λ _. Unchanged s)
          (ref_ro_snapshot rt target image_id key (create_snapshot_metadata target) s)
  unfolding ref_ro_snapshot
  ref-Ends target image_id key s fresh = elim (list-cases (key_of target s)) [
    | inr held ↦ rw held tt
    | inl free ↦ rw free (elim (length-cases (targets_of key s)) [
      | inl none_yet ↦ rw none_yet (
          created-Ends target key s free image_id _ _ none_yet (
            laws.prepare_read_only_law image_id key (create_snapshot_metadata target) s.runtime
              (fresh none_yet)))
      | inr some_yet ↦
          rw (some_yet, copy_targets-create target (targets_of key s))
            (shared-Ends target key s free _ _
              (laws.update_law key (shared_metadata target (targets_of key s)) s.runtime))
    ])
  ]

  -- `target` held a snapshot and does not any more. The last target takes the snapshot with it.
  pub record Released (target : Text) (s s' : SnapshotMounter rt.State) : Type 0 where
    pub held : is_empty (key_of target s) ≡ false
    pub counted : 0 < length (targets_of (key_of target s) s)
    pub keys :
        (u : Text)
        → get u s'.target_ro_snapshot_map
          ≡ (if target == u then none else get u s.target_ro_snapshot_map)
    pub sets :
        (j : Text)
        → get j s'.ro_snapshot_targets_map ≡ (
            if key_of target s == j
            then (if ltb 1 (length (targets_of j s))
                then some (delete target (targets_of j s))
                else none)
            else get j s.ro_snapshot_targets_map)
    pub records :
        (j : Text)
        → recorded s'.runtime j ≡ (
            if key_of target s == j
            then (if ltb 1 (length (targets_of j s))
                then named_by (build_snapshot_metadata (delete target (targets_of j s)))
                else no_targets)
            else recorded s.runtime j)

  -- The outcome of a search for `target`: released, or not found and nothing changed.
  abbrev pub Unreferred : Text → SnapshotMounter rt.State → Bool → SnapshotMounter rt.State → Type 0
  Unreferred target s true s' = Released target s s'
  Unreferred target s false s' = (key_of target s ≡ []) × Unchanged s s'

  module _ (target : Text) (s : SnapshotMounter rt.State)
      (held : is_empty (key_of target s) ≡ false) where
    abbrev left_set : TargetSet
    left_set = delete target (targets_of (key_of target s) s)

    left-Ends :
        (o : Outcome rt.Error Unit) (r : rt.State)
        → ltb 1 (length (targets_of (key_of target s) s)) ≡ true
        → ((j : Text)
            → Settles o
                (recorded r j)
                (if key_of target s == j
                  then named_by (build_snapshot_metadata left_set)
                  else recorded s.runtime j)
                (recorded s.runtime j))
        → Ends
            (Unreferred target s)
            (λ _ _. ⊥)
            (continue
              (die_on_err o)
              (record (set_targets_of (key_of target s) left_set s) { runtime = r })
              (λ _. modify (drop_key_of target) >> pure true))
    left-Ends (ok _) r many law = record {
      held = held;
      counted = ground arith;
      keys = λ u. get-delete target u s.target_ro_snapshot_map;
      sets = λ j. ground (
        arith,
        get-put (key_of target s) j left_set s.ro_snapshot_targets_map,
        text_eq_iff (key_of target s) j,
      );
      records = λ j. ground (arith, law j, text_eq_iff (key_of target s) j);
    }
    left-Ends (err e) r many law = tt
    left-Ends crash r many law = tt

    destroyed-Ends :
        (o : Outcome rt.Error Unit) (r : rt.State)
        → ltb 1 (length (targets_of (key_of target s) s)) ≡ false
        → 0 < length (targets_of (key_of target s) s)
        → ((j : Text)
            → Settles o
                (recorded r j)
                (if key_of target s == j then no_targets else recorded s.runtime j)
                (recorded s.runtime j))
        → Ends
            (Unreferred target s)
            (λ _ _. ⊥)
            (continue
              (die_on_err o)
              (record s { runtime = r })
              (λ _.
                modify (drop_targets_of (key_of target s))
                >> (modify (drop_key_of target) >> pure true)))
    destroyed-Ends (ok _) r few some_yet law = record {
      held = held;
      counted = some_yet;
      keys = λ u. get-delete target u s.target_ro_snapshot_map;
      sets = λ j. ground (
        arith,
        get-delete (key_of target s) j s.ro_snapshot_targets_map,
        text_eq_iff (key_of target s) j,
      );
      records = λ j. ground (arith, law j, text_eq_iff (key_of target s) j);
    }
    destroyed-Ends (err e) r few some_yet law = tt
    destroyed-Ends crash r few some_yet law = tt

  -- An unreference finds the target or changes nothing, and never returns an error.
  pub unref-Ends :
      (target : Text) (s : SnapshotMounter rt.State)
      → Ends (Unreferred target s) (λ _ _. ⊥) (unref_ro_snapshot rt target s)
  unfolding unref_ro_snapshot
  unref-Ends target s = elim (list-cases (key_of target s)) [
    | inl free ↦ rw free (free, record { keys = refl; sets = refl; records = λ j. refl })
    | inr held ↦ rw held (elim (Bool-cases (ltb 1 (length (targets_of (key_of target s) s)))) [
      | inl many ↦ rw many (
          left-Ends target s held _ _ many (
            laws.update_law (key_of target s) (build_snapshot_metadata (left_set target s held))
              s.runtime))
      | inr few ↦ rw few (elim (Bool-cases (length (targets_of (key_of target s) s) == 0)) [
        | inl none_yet ↦ rw none_yet tt
        | inr some_yet ↦ rw some_yet (
            destroyed-Ends target s held _ _ few (ground arith)
              (laws.destroy_law (key_of target s) s.runtime))
      ])
    ])
  ]
