-- ===== src/Backend/Crio/Service/Memory.antt =====
-- A storage in memory, with an encoding of targets that can be read back.
use container_image_csi_driv.Base.{
  suc, zero, ◌≡◌, refl, ap, ◌∙◌, Bool, true, false, List, [], ◌∷◌, ◌++◌, Option, none, some, arith,
  ◌==◌, if◌then◌else◌, is_some, drop, nat_eq,
}
use container_image_csi_driv.Text.{Text, codes, Text-eq, text_eq_iff}
use container_image_csi_driv.Strings.{cons_first}
use container_image_csi_driv.Dict.{Dict, get, has, put, delete, get-put, get-delete}
use container_image_csi_driv.Exec.{Exec, ok, err}
use container_image_csi_driv.Backend.Metadata.{
  TargetSet, SnapshotMetadata, metadata_key_targets, object, get_targets, targets_in, named_by,
  to_target_set,
}
use container_image_csi_driv.Backend.Runtime.{Settles}
use container_image_csi_driv.Backend.Crio.{Container, ImageStore}
use container_image_csi_driv.Backend.Crio.Service.{Storage}
use container_image_csi_driv.Backend.Crio.Service.Laws.{StorageLaws, with_metadata}

-- Each target is written with its bytes raised by one, before a zero.
raise : Text → Text
raise [] = zero ∷ []
raise (c ∷ t) = suc c ∷ raise t

write : TargetSet → Text
write [] = []
write ((t, _) ∷ ts) = raise t ++ write ts

read : Text → List Text
read [] = []
read (zero ∷ s) = [] ∷ read s
read (suc c ∷ s) = cons_first c (read s)

read-raise : (t s : Text) → read (raise t ++ s) ≡ t ∷ read s
unfolding read raise
read-raise [] s = refl
read-raise (c ∷ t) s = ap (cons_first c) (read-raise t s)

has-read-write : (u : Text) (ts : TargetSet) → has u (to_target_set (read (write ts))) ≡ has u ts
unfolding read write to_target_set get
has-read-write u [] = refl
has-read-write u ((t, x) ∷ ts) =
    ap (λ ks. has u (to_target_set ks)) (read-raise t (write ts))
    ∙ ground (arith, get-put t u tt (to_target_set (read (write ts))), has-read-write u ts)

pub decode_text : Text → Bool × SnapshotMetadata
decode_text t = (true, (metadata_key_targets, object (read (drop 1 t))) ∷ [])

pub encode_text : SnapshotMetadata → Text
encode_text m = b'{' ∷ write (targets_in (some m))

decode-encode_text :
    (m : SnapshotMetadata) (u : Text) → named_by (decode_text (encode_text m)).1 u ≡ named_by m u
unfolding decode_text encode_text get_targets get
decode-encode_text m u = has-read-write u (targets_in (some m))

abbrev pub Containers : Type 0
Containers = Dict Text Container

pub write_metadata : Text → Text → Option Container → Exec Containers Text Unit
write_metadata key meta none s = (err (codes "not known"), s)
write_metadata key meta (some c) s = (ok tt, put key (record c { metadata = meta }) s)

abbrev pub memory_store : ImageStore
memory_store = record {
  State = Containers;
  Error = Text;
  container = get;
  create_container = λ key image meta ro s.
      (ok tt, put key (record { id = key; image_id = image; metadata = meta }) s);
  encode = encode_text;
  decode = decode_text;
  deep_equal = λ v o. false;
}

abbrev pub memory_storage : Storage
memory_storage = record {
  store = memory_store;
  image = λ image s. (ok image, s);
  mount_container = λ key s. (ok key, s);
  unmount_container = λ key s. (ok false, s);
  set_metadata = λ key meta s. write_metadata key meta (get key s) s;
  delete_container =
      λ key s. if has key s then (ok tt, delete key s) else (err (codes "not known"), s);
  containers = λ s. (ok [], s);
  bind_mount = λ source target options s. (ok tt, s);
  unmount_target = λ target s. (ok tt, s);
}

write_metadata-Settles :
    (key meta : Text) (s : Containers) (o : Option Container) (j : Text)
    → get key s ≡ o
    → let r = write_metadata key meta o s in
      Settles r.0 (get j r.1) (if key == j then with_metadata meta (get j s) else get j s) (get j s)
unfolding write_metadata
write_metadata-Settles key meta s none j e = refl
write_metadata-Settles key meta s (some c) j e =
    ground (arith, get-put key j (record c { metadata = meta }) s, e, text_eq_iff key j)

write_metadata-known :
    (key meta : Text) (s : Containers) (o : Option Container)
    → get key s ≡ o
    → (write_metadata key meta o s).0 ≡ ok tt
    → is_some (get key s) ≡ true
unfolding write_metadata
write_metadata-known key meta s none e h = cc
write_metadata-known key meta s (some c) e h = rw e refl

pub memory_storage_laws : StorageLaws memory_storage
unfolding encode_text
memory_storage_laws = record {
  create_law = λ key image meta ro s j.
      get-put key j (record { id = key; image_id = image; metadata = meta }) s;
  set_metadata_law = λ key meta s j. write_metadata-Settles key meta s (get key s) j refl;
  set_metadata_known = λ key meta s. write_metadata-known key meta s (get key s) refl;
  delete_law = λ key s j. ground (arith, get-delete key j s, text_eq_iff key j);
  delete_known = λ key s h. ground arith;
  image_keeps = λ image s j. refl;
  mount_container_keeps = λ key s j. refl;
  unmount_container_keeps = λ key s j. refl;
  bind_mount_keeps = λ source target options s j. refl;
  unmount_target_keeps = λ target s j. refl;
  decode_law = λ m. (refl, decode-encode_text m);
  deep_equal_law = λ v o e. absurd (cc e);
}
