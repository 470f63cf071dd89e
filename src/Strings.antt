-- ===== src/Strings.antt =====
-- The functions of Go's package `strings` that the driver calls, over bytes.
pub mod Trim
pub mod Path
pub mod Decimal
pub mod Join
use container_image_csi_driv.Base.{
  ℕ, suc, ◌+◌, ◌-◌, ◌≤◌, ◌≡◌, refl, ap, ◌∙◌, Bool, true, false, ◌&&◌, ◌||◌, List, [], ◌∷◌, ◌++◌,
  Option, none, some, arith, nat_beq, leb, if◌then◌else◌, length, take, drop, length-append,
  drop-append, take-append, take-append-drop, append_assoc, Bool-cases, Option-cases, inl, inr,
  drop-append_le,
}
use container_image_csi_driv.Text.{Text, text_eq, text_eq_iff}

-- strings.HasPrefix
unfoldable pub has_prefix : Text → Text → Bool
has_prefix s [] = true
has_prefix [] (x ∷ p) = false
has_prefix (c ∷ s) (x ∷ p) = nat_beq c x && has_prefix s p

-- strings.HasSuffix
unfoldable pub has_suffix : Text → Text → Bool
has_suffix s p = leb (length p) (length s) && text_eq (drop (length s - length p) s) p

-- strings.Index, `none` for -1
unfoldable pub index : Text → Text → Option ℕ
index [] p = if has_prefix [] p then some 0 else none
index (c ∷ s) p =
    let later = index s p in
    if has_prefix (c ∷ s) p then some 0 else elim later [ none ↦ none | some i ↦ some (suc i) ]

-- strings.Contains
unfoldable pub contains : Text → Text → Bool
contains s p = elim (index s p) [ none ↦ false | some i ↦ true ]

-- Whether a byte is among `chars`.
unfoldable pub contains_byte : Text → ℕ → Bool
contains_byte [] c = false
contains_byte (x ∷ chars) c = nat_beq c x || contains_byte chars c

-- strings.ContainsAny, for ASCII `chars`
unfoldable pub contains_any : Text → Text → Bool
contains_any [] chars = false
contains_any (c ∷ s) chars = contains_byte chars c || contains_any s chars

abbrev pub cons_first : ℕ → List Text → List Text
cons_first c [] = (c ∷ []) ∷ []
cons_first c (p ∷ ps) = (c ∷ p) ∷ ps

-- strings.Split at one byte; there is always a part
unfoldable pub split : Text → ℕ → List Text
split [] sep = [] ∷ []
split (c ∷ s) sep = let rest = split s sep in if nat_beq c sep then [] ∷ rest else cons_first c rest

-- parts[0] of a split
abbrev pub first_part : List Text → Text
first_part [] = []
first_part (p ∷ ps) = p

-- strings.TrimPrefix
unfoldable pub trim_prefix : Text → Text → Text
unfolding has_prefix
trim_prefix s p = if has_prefix s p then drop (length p) s else s

-- strings.ToLower, of ASCII
lower_byte : ℕ → ℕ
lower_byte c = if leb b'A' c && leb c b'Z' then c + 32 else c

unfoldable pub to_lower : Text → Text
unfolding lower_byte
to_lower [] = []
to_lower (c ∷ s) = lower_byte c ∷ to_lower s

pub has_prefix-append : (p r : Text) → has_prefix (p ++ r) p ≡ true
unfolding has_prefix
has_prefix-append [] r = ground arith
has_prefix-append (x ∷ p) r = ground (arith, has_prefix-append p r)

pub has_prefix_sound : (s p : Text) → has_prefix s p ≡ true → s ≡ p ++ drop (length p) s
unfolding has_prefix
has_prefix_sound s [] h = refl
has_prefix_sound [] (x ∷ p) h = cc
has_prefix_sound (c ∷ s) (x ∷ p) h = ground (arith, has_prefix_sound s p)

sub_add : (a b : ℕ) → a + b - b ≡ a
sub_add a b = omega arith

length-text_eq : (a b : Text) → text_eq a b ≡ true → length a ≡ length b
length-text_eq a b h = ap length ((text_eq_iff a b).0 h)

pub has_suffix-append : (x p : Text) → has_suffix (x ++ p) p ≡ true
unfolding has_suffix
has_suffix-append x p =
    ground
      (arith, length-append x p, drop-append x p, sub_add (length x) (length p), text_eq_iff p p)

pub trim_suffix-append : (x p : Text) → take (length (x ++ p) - length p) (x ++ p) ≡ x
trim_suffix-append x p = rw (length-append x p, sub_add (length x) (length p)) (take-append x p)

pub has_suffix_sound : (s p : Text) → has_suffix s p ≡ true → s ≡ take (length s - length p) s ++ p
unfolding has_suffix
has_suffix_sound s p h =
    ground (
      arith,
      take-append-drop (length s - length p) s,
      text_eq_iff (drop (length s - length p) s) p,
    )

-- s[strings.Index(s, p)+len(p):]
pub after_index : Text → Text → Option Text
after_index [] p = if has_prefix [] p then some [] else none
after_index (c ∷ s) p =
    let later = after_index s p in
    if has_prefix (c ∷ s) p then some (drop (length p) (c ∷ s)) else later

pub after_index-append : (p y : Text) → after_index (p ++ y) p ≡ some y
unfolding after_index has_prefix
after_index-append [] [] = refl
after_index-append [] (c ∷ y) = refl
after_index-append (x ∷ p) y = ground (arith, has_prefix-append (x ∷ p) y, drop-append p y)

drop_later : (i n c : ℕ) (s : Text) → drop (suc i + n) (c ∷ s) ≡ drop (i + n) s
drop_later i n c s = let e : suc i + n ≡ suc (i + n) = omega arith in rw e refl

pub after_index_lem :
    (s p : Text)
    → (elim (index s p) [ none ↦ none | some i ↦ some (drop (i + length p) s) ]) ≡ after_index s p
unfolding index after_index has_prefix
after_index_lem [] [] = refl
after_index_lem [] (x ∷ p) = refl
after_index_lem (c ∷ s) p = elim (Bool-cases (has_prefix (c ∷ s) p)) [
  | inl here ↦ rw here (let e : 0 + length p ≡ length p = omega arith in rw e refl)
  | inr later ↦ rw later (elim (Option-cases (index s p)) [
    | inl e ↦ rw e (rw e at (after_index_lem s p))
    | inr (i, e) ↦ rw e (ap some (drop_later i (length p) c s) ∙ rw e at (after_index_lem s p))
  ])
]

pub after_index_sound : (s p r : Text) → after_index s p ≡ some r → (x : Text) × (s ≡ x ++ (p ++ r))
unfolding after_index has_prefix
after_index_sound [] [] r h = ([], ground arith)
after_index_sound [] (x ∷ p) r h = absurd (ground arith)
after_index_sound (c ∷ s) p r h = elim (Bool-cases (has_prefix (c ∷ s) p)) [
  | inl here ↦ ([], ground (arith, has_prefix_sound (c ∷ s) p here))
  | inr later ↦ let (x, e) = after_index_sound s p r (rw later at h) in (c ∷ x, ap (◌∷◌ c) e)
]

length-inner : (c : ℕ) (x p : Text) → length p ≤ length ((c ∷ x) ++ p)
length-inner c x p = omega (arith, length-append x p)

-- One step of the search, either way.
after_index_here :
    (c : ℕ) (s p : Text)
    → has_prefix (c ∷ s) p ≡ true
    → after_index (c ∷ s) p ≡ some (drop (length p) (c ∷ s))
unfolding after_index
after_index_here c s p h = rw h refl

after_index_later :
    (c : ℕ) (s p : Text) → has_prefix (c ∷ s) p ≡ false → after_index (c ∷ s) p ≡ after_index s p
unfolding after_index
after_index_later c s p h = rw h refl

pub after_index_complete :
    (x p y : Text) → (z : Text) × (after_index (x ++ (p ++ y)) p ≡ some (z ++ y))
after_index_complete [] p y = ([], after_index-append p y)
after_index_complete (c ∷ x) p y = elim (Bool-cases (has_prefix (c ∷ (x ++ (p ++ y))) p)) [
  | inl here ↦ (
    drop (length p) ((c ∷ x) ++ p),
    after_index_here c (x ++ (p ++ y)) p here
        ∙ ap some (
            rw (← append_assoc (c ∷ x) p y)
              (drop-append_le (length p) ((c ∷ x) ++ p) y (length-inner c x p))),
  )
  | inr later ↦
      let (z, e) = after_index_complete x p y in
      (z, after_index_later c (x ++ (p ++ y)) p later ∙ e)
]

pub split-cons : (s : Text) (sep : ℕ) → (p : Text) × (ps : List Text) × (split s sep ≡ p ∷ ps)
unfolding split
split-cons [] sep = ([], [], refl)
split-cons (c ∷ s) sep =
    let (p, ps, e) = split-cons s sep in
    elim (Bool-cases (nat_beq c sep)) [
      | inl here ↦ ([], p ∷ ps, rw (here, e) refl)
      | inr later ↦ (c ∷ p, ps, rw (later, e) refl)
    ]

pub contains-after_index : (s p r : Text) → after_index s p ≡ some r → contains s p ≡ true
unfolding contains
contains-after_index s p r h = elim (Option-cases (index s p)) [
  | inl e ↦ absurd (cc (rw e at (after_index_lem s p)))
  | inr (i, e) ↦ rw (contains, e) refl
]

pub contains-append : (x p y : Text) → contains (x ++ (p ++ y)) p ≡ true
contains-append x p y =
    let (z, e) = after_index_complete x p y in contains-after_index (x ++ (p ++ y)) p (z ++ y) e

pub has_prefix_refl : (s : Text) → has_prefix s s ≡ true
unfolding has_prefix
has_prefix_refl [] = refl
has_prefix_refl (c ∷ s) = ground (arith, has_prefix_refl s)

pub has_prefix_trans :
    (s t u : Text) → has_prefix s t ≡ true → has_prefix t u ≡ true → has_prefix s u ≡ true
unfolding has_prefix
has_prefix_trans s t [] h k = ground arith
has_prefix_trans s [] (z ∷ u) h k = absurd (ground arith)
has_prefix_trans [] (y ∷ t) (z ∷ u) h k = absurd (ground arith)
has_prefix_trans (x ∷ s) (y ∷ t) (z ∷ u) h k = ground (arith, has_prefix_trans s t u)
