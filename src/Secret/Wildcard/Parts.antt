-- ===== src/Secret/Wildcard/Parts.antt =====
-- What it means for a text to be made of parts with anything in between, and that `wildcardMatch`
-- decides it: the leftmost place for a part is as good as any.
use container_image_csi_driv.Base.{
  ◌≡◌, refl, sym, ap, ◌∙◌, true, false, List, [], ◌∷◌, ◌++◌, none, some, inl, inr, arith, length,
  is_empty, drop, append-nil, append_assoc, Bool-cases, Option-cases, ltb, ◌⊎◌, drop-append,
}
use container_image_csi_driv.Text.{Text, text_eq_iff}
use container_image_csi_driv.Strings.{
  after_index, after_index_lem, after_index_sound, after_index_complete, has_prefix,
  has_prefix_sound, has_prefix-append, has_suffix, has_suffix_sound, has_suffix-append,
  trim_suffix-append,
}
use container_image_csi_driv.Secret.Wildcard.{
  last_part, inner_parts, match_middle, match_rest, match_parts,
}

nil-cases : (p : Text) → (p ≡ []) ⊎ (ltb 0 (length p) ≡ true)
nil-cases [] = inl refl
nil-cases (c ∷ p) = inr (ground arith)

-- The parts in order, from anywhere on, and anything behind.
abbrev pub Among : List Text → Text → Type 0
Among [] s = Unit
Among (p ∷ ps) s = (x : Text) × (y : Text) × (s ≡ x ++ (p ++ y)) × Among ps y

-- The parts in order, from anywhere on, the last at the very end.
abbrev pub Spread : List Text → Text → Type 0
Spread [] s = ⊥
Spread (p ∷ []) s = (x : Text) × (s ≡ x ++ p)
Spread (p ∷ q ∷ ps) s = (x : Text) × (y : Text) × (s ≡ x ++ (p ++ y)) × Spread (q ∷ ps) y

-- The parts in order, the first at the very start and the last at the very end.
abbrev pub Spans : List Text → Text → Type 0
Spans [] s = ⊥
Spans (p ∷ []) s = s ≡ p
Spans (p ∷ q ∷ ps) s = (y : Text) × (s ≡ p ++ y) × Spread (q ∷ ps) y

Among-append : (z : Text) (ps : List Text) (y : Text) → Among ps y → Among ps (z ++ y)
Among-append z [] y a = tt
Among-append z (p ∷ ps) y (x, y', e, a) =
    (z ++ x, y', ap (◌++◌ z) e ∙ sym (append_assoc z x (p ++ y')), a)

match_middle_found :
    (s p : Text) (ps : List Text) (r : Text)
    → is_empty p ≡ false
    → after_index s p ≡ some r
    → match_middle s (p ∷ ps) ≡ match_middle r ps
unfolding match_middle
match_middle_found s p ps r full e = ground (arith, after_index_lem s p)

match_middle_lost :
    (s p : Text) (ps : List Text)
    → is_empty p ≡ false
    → after_index s p ≡ none
    → match_middle s (p ∷ ps) ≡ false
unfolding match_middle
match_middle_lost s p ps full e = ground (arith, after_index_lem s p)

match_middle_skip : (s : Text) (ps : List Text) → match_middle s ([] ∷ ps) ≡ match_middle s ps
unfolding match_middle
match_middle_skip s ps = refl

match_middle_sound : (s : Text) (ps : List Text) → match_middle s ps ≡ true → Among ps s
match_middle_sound s [] h = tt
match_middle_sound s ([] ∷ ps) h =
    ([], s, refl, match_middle_sound s ps (rw (match_middle_skip s ps) at h))
match_middle_sound s ((c ∷ p) ∷ ps) h = elim (Option-cases (after_index s (c ∷ p))) [
  | inl lost ↦ cc (match_middle_lost s (c ∷ p) ps refl lost)
  | inr (r, found) ↦
      let (x, e) = after_index_sound s (c ∷ p) r found in
      (x, r, e, match_middle_sound r ps (rw (match_middle_found s (c ∷ p) ps r refl found) at h))
]

match_middle_complete : (s : Text) (ps : List Text) → Among ps s → match_middle s ps ≡ true
match_middle_complete s [] a = unfold match_middle in refl
match_middle_complete s ([] ∷ ps) (x, y, e, a) =
    match_middle_skip s ps ∙ match_middle_complete s ps (rw e (Among-append x ps y a))
match_middle_complete s ((c ∷ p) ∷ ps) (x, y, e, a) =
    let (z, found) = after_index_complete x (c ∷ p) y in
    match_middle_found s (c ∷ p) ps (z ++ y) refl (rw e found)
    ∙ match_middle_complete (z ++ y) ps (Among-append z ps y a)

regroup : (x p w l : Text) → x ++ (p ++ (w ++ l)) ≡ (x ++ (p ++ w)) ++ l
regroup x p w l = simp append_assoc

-- The last part is taken from the end first.
Spread→Among :
    (p : Text) (ps : List Text) (s : Text)
    → Spread (p ∷ ps) s
    → (x : Text) × (s ≡ x ++ last_part (p ∷ ps)) × Among (inner_parts (p ∷ ps)) x
Spread→Among p [] s (x, e) = (x, e, tt)
Spread→Among p (q ∷ ps) s (x, y, e, sp) =
    let (w, e', a) = Spread→Among q ps y sp in
    (x ++ (p ++ w), rw (e, e') (regroup x p w (last_part (q ∷ ps))), (x, w, refl, a))

Among→Spread :
    (p : Text) (ps : List Text) (s x : Text)
    → s ≡ x ++ last_part (p ∷ ps)
    → Among (inner_parts (p ∷ ps)) x
    → Spread (p ∷ ps) s
Among→Spread p [] s x e a = (x, e)
Among→Spread p (q ∷ ps) s x e (x', y, e', a) =
    let last = last_part (q ∷ ps) in
    (x', y ++ last, rw (e, e') (sym (regroup x' p y last)), Among→Spread q ps (y ++ last) y refl a)

match_rest_sound : (s p : Text) (ps : List Text) → match_rest s (p ∷ ps) ≡ true → Spread (p ∷ ps) s
unfolding match_rest
match_rest_sound s p ps h = elim (nil-cases (last_part (p ∷ ps))) [
  | inl none_left ↦
      Among→Spread p ps s s (rw none_left (sym (append-nil s)))
        (match_middle_sound s _ (rw none_left at h))
  | inr some_left ↦ elim (Bool-cases (has_suffix s (last_part (p ∷ ps)))) [
    | inl ends ↦
        Among→Spread p ps s _ (has_suffix_sound s (last_part (p ∷ ps)) ends)
          (match_middle_sound _ _ (rw (some_left, ends) at h))
    | inr other ↦ cc (rw (some_left, other) at h)
  ]
]

match_rest_complete :
    (s p : Text) (ps : List Text) → Spread (p ∷ ps) s → match_rest s (p ∷ ps) ≡ true
unfolding match_rest
match_rest_complete s p ps sp =
    let (x, e, a) = Spread→Among p ps s sp in
    elim (nil-cases (last_part (p ∷ ps))) [
      | inl none_left ↦ rw (e, none_left, append-nil x) (match_middle_complete x _ a)
      | inr some_left ↦
          rw
            (
              e,
              some_left,
              has_suffix-append x (last_part (p ∷ ps)),
              trim_suffix-append x (last_part (p ∷ ps)),
            )
            (match_middle_complete x _ a)
    ]

pub match_parts_sound :
    (s pattern : Text) (p : Text) (ps : List Text)
    → (ps ≡ [] → pattern ≡ p)
    → match_parts s pattern (p ∷ ps) ≡ true
    → Spans (p ∷ ps) s
unfolding match_parts
match_parts_sound s pattern p [] whole h = (text_eq_iff s pattern).0 h ∙ whole refl
match_parts_sound s pattern p (q ∷ ps) whole h = elim (Bool-cases (has_prefix s p)) [
  | inl starts ↦
      (drop (length p) s, has_prefix_sound s p starts, match_rest_sound _ q ps (rw starts at h))
  | inr other ↦ cc (rw other at h)
]

pub match_parts_complete :
    (s pattern : Text) (p : Text) (ps : List Text)
    → (ps ≡ [] → pattern ≡ p)
    → Spans (p ∷ ps) s
    → match_parts s pattern (p ∷ ps) ≡ true
unfolding match_parts
match_parts_complete s pattern p [] whole e = (text_eq_iff s pattern).1 (e ∙ sym (whole refl))
match_parts_complete s pattern p (q ∷ ps) whole (y, e, sp) =
    rw (e, has_prefix-append p y, drop-append p y) (match_rest_complete y q ps sp)
