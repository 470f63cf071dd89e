-- ===== src/Backend/Containerd/Service/Memory.antt =====
-- A containerd in memory, which keeps the promises that the driver relies on.
use container_image_csi_driv.Base.{
  ◌≡◌, ◌≢◌, ◌∙◌, sym, subst, refl, ap, All, false, List, [], ◌∷◌, ◌++◌, Option, none, some, arith,
  ◌==◌, if◌then◌else◌, Bool-cases, inl, inr,
}
use container_image_csi_driv.Text.{Text, codes, Text-eq, text_eq, text_eq_iff, ne_of_text_eq}
use container_image_csi_driv.Dict.{Dict, get, has, put, delete, get-put, get-delete}
use container_image_csi_driv.Exec.{Exec, Outcome, ok, err}
use container_image_csi_driv.Backend.Runtime.{Settles}
use container_image_csi_driv.Backend.Containerd.{Labels, Kind, view, active, Info}
use container_image_csi_driv.Backend.Containerd.Service.{Service}
use container_image_csi_driv.Backend.Containerd.Service.Laws.{ServiceLaws, NamesApart}

abbrev pub Table : Type 0
Table = Dict Text Info

abbrev named : Text → Option Info → Option Info
named key none = none
named key (some i) = some (record i { name = key })

abbrev pub info_in : Table → Text → Option Info
info_in s key = named key (get key s)

abbrev stat_of : Option Info → Outcome Text Info
stat_of none = err (codes "not found")
stat_of (some i) = ok i

unfoldable pub create : Kind → Text → Text → Labels → Exec Table Text Unit
create kind key parent labels s =
    if has key s
    then (err (codes "already exists"), s)
    else (ok tt, put key (record { name = key; kind = kind; parent = parent; labels = labels }) s)

drop_named : Text → List Info → List Info
drop_named key [] = []
drop_named key (i ∷ is) =
    let rest = drop_named key is in if text_eq i.name key then rest else i ∷ rest

-- The table, each key once.
unfoldable pub infos : Table → List Info
unfolding drop_named
infos [] = []
infos ((key, i) ∷ s) = record i { name = key } ∷ drop_named key (infos s)

abbrev pub memory : Service
memory = record {
  State = Table;
  Image = Text;
  stat = λ key s. (stat_of (info_in s key), s);
  view_snapshot = create view;
  prepare_snapshot = create active;
  update = λ i s. (ok tt, put i.name i s);
  remove = λ key s. if has key s then (ok tt, delete key s) else (err (codes "not found"), s);
  walk = λ s. (ok (infos s), s);
  mounts = λ key s. (ok (record { source = key; fs_type = codes "bind"; options = [] } ∷ []), s);
  get_image = λ image s. (ok image, s);
  unpack = λ image s. (ok tt, s);
  chain_id = λ image s. (ok (codes "sha256:" ++ image), s);
  now = λ s. codes "2024-01-01T00:00:00Z";
  is_named = λ name. false;
  host = record {
    context_variable = λ s. [];
    enforce_file = λ s. none;
    lstat = λ path s. none;
    syscall_mount = λ source target fs_type options s. (ok tt, s);
    umount = λ target s. (ok tt, s);
  };
}

stat_of-ok :
    (o : Option Info) (k : Text) (i : Info)
    → stat_of (named k o) ≡ ok i
    → (named k o ≡ some i) × (i.name ≡ k)
stat_of-ok none k i h = absurd cc
stat_of-ok (some x) k i h = ground arith

info-put :
    (i : Info) (s : Table) (j : Text)
    → info_in (put i.name i s) j ≡ (if i.name == j then some i else info_in s j)
info-put i s j = ground (arith, get-put i.name j i s, text_eq_iff i.name j)

create-Settles :
    (kind : Kind) (k p : Text) (l : Labels) (s : Table) (j : Text)
    → let r = create kind k p l s in
      Settles r.0
        (info_in r.1 j)
        (if k == j
          then some (record { name = k; kind = kind; parent = p; labels = l })
          else info_in s j)
        (info_in s j)
unfolding create
create-Settles kind k p l s j = elim (Bool-cases (has k s)) [
  | inl there ↦ rw there refl
  | inr free ↦ rw free (info-put (record { name = k; kind = kind; parent = p; labels = l }) s j)
]

module _ (key : Text) where
  drop_named-absent : (is : List Info) → All (λ i. i.name ≢ key) (drop_named key is)
  unfolding drop_named
  drop_named-absent [] = tt
  drop_named-absent (i ∷ is) = elim (Bool-cases (text_eq i.name key)) [
    | inl same ↦ rw same (drop_named-absent is)
    | inr other ↦ rw other (ne_of_text_eq i.name key other, drop_named-absent is)
  ]

  drop_named-All : (P : Info → Type 0) (is : List Info) → All P is → All P (drop_named key is)
  unfolding drop_named
  drop_named-All P [] a = tt
  drop_named-All P (i ∷ is) a = elim (Bool-cases (text_eq i.name key)) [
    | inl same ↦ rw same (drop_named-All P is a.1)
    | inr other ↦ rw other (a.0, drop_named-All P is a.1)
  ]

  drop_named-NamesApart : (is : List Info) → NamesApart is → NamesApart (drop_named key is)
  unfolding drop_named
  drop_named-NamesApart [] a = tt
  drop_named-NamesApart (i ∷ is) a = elim (Bool-cases (text_eq i.name key)) [
    | inl same ↦ rw same (drop_named-NamesApart is a.1)
    | inr other ↦ rw other (drop_named-All _ is a.0, drop_named-NamesApart is a.1)
  ]

  -- A name that is neither the key nor left is not in the list.
  absent-drop_named :
      (k : Text) (is : List Info)
      → key ≢ k
      → All (λ i. i.name ≢ k) (drop_named key is)
      → All (λ i. i.name ≢ k) is
  unfolding drop_named
  absent-drop_named k [] n a = tt
  absent-drop_named k (i ∷ is) n a = elim (Bool-cases (text_eq i.name key)) [
    | inl same ↦ (
      λ e. n (sym ((text_eq_iff i.name key).0 same) ∙ e),
      absent-drop_named k is n (rw same at a),
    )
    | inr other ↦ let a' = rw other at a in (a'.0, absent-drop_named k is n a'.1)
  ]

listing_of : Outcome Text (List Info) → List Info
listing_of (ok is) = is
listing_of _ = []

ok-injective : {is is' : List Info} → ◌≡◌ {A = Outcome Text (List Info)} (ok is) (ok is') → is ≡ is'
unfolding listing_of
ok-injective e = ap listing_of e

All-both :
    {P Q R : Info → Type 0} (is : List Info)
    → ((i : Info) → P i → Q i → R i)
    → All P is
    → All Q is
    → All R is
All-both [] f p q = tt
All-both (i ∷ is) f p q = (f i p.0 q.0, All-both is f p.1 q.1)

infos-found : (s : Table) → All (λ i. info_in s i.name ≡ some i) (infos s)
unfolding infos get
infos-found [] = tt
infos-found ((key, i) ∷ s) = (
  rw ((text_eq_iff key key).1 refl) refl,
  All-both {P = λ x. info_in s x.name ≡ some x} {Q = λ x. x.name ≢ key} _
      (λ x found apart. ground (arith, found, apart, text_eq_iff key x.name))
      (drop_named-All key _ (infos s) (infos-found s)) (drop_named-absent key (infos s)),
)

infos-NamesApart : (s : Table) → NamesApart (infos s)
unfolding infos
infos-NamesApart [] = tt
infos-NamesApart ((key, i) ∷ s) =
    (drop_named-absent key (infos s), drop_named-NamesApart key (infos s) (infos-NamesApart s))

infos_complete : (s : Table) (k : Text) → All (λ i. i.name ≢ k) (infos s) → info_in s k ≡ none
unfolding infos get
infos_complete [] k a = refl
infos_complete ((key, i) ∷ s) k a =
    ground (
      arith,
      a.0,
      text_eq_iff key k,
      infos_complete s k (absent-drop_named key k (infos s) a.0 a.1),
    )

pub memory_laws : ServiceLaws memory
unfolding create
memory_laws = record {
  info = info_in;
  stat_law = λ k s i h. stat_of-ok (get k s) k i h;
  stat_keeps = λ k s j. refl;
  view_law = create-Settles view;
  prepare_law = create-Settles active;
  prepare_free = λ k p l s h. ground arith;
  update_law = info-put;
  remove_law = λ k s j. ground (arith, get-delete k j s);
  remove_known = λ k s h. ground arith;
  walk_keeps = λ s j. refl;
  walk_law = λ s is e.
      subst
        (λ l.
          All (λ i. info_in s i.name ≡ some i) l
          × NamesApart l
          × ((k : Text) → All (λ i. i.name ≢ k) l → info_in s k ≡ none))
        (ok-injective e) (infos-found s, infos-NamesApart s, infos_complete s);
  mounts_keeps = λ k s j. refl;
  get_image_keeps = λ i s j. refl;
  chain_id_keeps = λ i s j. refl;
  unpack_keeps = λ i s j. refl;
  syscall_mount_keeps = λ source target fs_type options s j. refl;
  umount_keeps = λ target s j. refl;
}

pub memory_laws-info : (s : Table) (k : Text) → memory_laws.info s k ≡ info_in s k
unfolding memory_laws
memory_laws-info s k = refl
