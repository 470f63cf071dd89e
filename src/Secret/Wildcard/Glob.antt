-- ===== src/Secret/Wildcard/Glob.antt =====
-- Patterns with stars by what they mean, byte by byte, and that the code decides that meaning.
use container_image_csi_driv.Base.{
  ℕ, ◌≡◌, ◌≢◌, refl, sym, subst, ap, ◌↔◌, true, List, [], ◌∷◌, ◌++◌, inl, inr, arith, Bool-cases,
  ◌⊎◌,
}
use container_image_csi_driv.Text.{Text, text_eq, text_eq_iff}
use container_image_csi_driv.Strings.{split, cons_first}
use container_image_csi_driv.Secret.Wildcard.{star, wildcard_match, match_parts, matches_pattern}
use container_image_csi_driv.Secret.Wildcard.Parts.{
  Spread, Spans, match_parts_sound, match_parts_complete,
}

-- `Glob p s`: the pattern `p` matches the whole of `s`, a star any run of bytes.
pub data Glob : Text → Text → Type 0 where
  empty : Glob [] []
  byte : {c : ℕ} {p s : Text} → c ≢ star → Glob p s → Glob (c ∷ p) (c ∷ s)
  leave : {c : ℕ} {p s : Text} → c ≡ star → Glob p s → Glob (c ∷ p) s
  take : {c d : ℕ} {p s : Text} → c ≡ star → Glob (c ∷ p) s → Glob (c ∷ p) (d ∷ s)

split-star : (c : ℕ) (p : Text) → c ≡ star → split (c ∷ p) star ≡ [] ∷ split p star
unfolding split
split-star c p e = ground arith

split-byte : (c : ℕ) (p : Text) → c ≢ star → split (c ∷ p) star ≡ cons_first c (split p star)
unfolding split
split-byte c p n = ground arith

Spans-byte : (c : ℕ) (ps : List Text) (s : Text) → Spans ps s → Spans (cons_first c ps) (c ∷ s)
Spans-byte c [] s h = absurd h
Spans-byte c (p ∷ []) s e = ap (◌∷◌ c) e
Spans-byte c (p ∷ q ∷ ps) s (y, e, sp) = (y, ap (◌∷◌ c) e, sp)

byte-Spans :
    (c : ℕ) (ps : List Text) (s : Text)
    → ps ≢ []
    → Spans (cons_first c ps) s
    → (t : Text) × (s ≡ c ∷ t) × Spans ps t
byte-Spans c [] s some_part h = absurd (some_part refl)
byte-Spans c (p ∷ []) s some_part e = (p, e, refl)
byte-Spans c (p ∷ q ∷ ps) s some_part (y, e, sp) = (p ++ y, e, (y, refl, sp))

Spans→Spread : (ps : List Text) (s : Text) → Spans ps s → Spread ps s
Spans→Spread [] s h = h
Spans→Spread (p ∷ []) s e = ([], e)
Spans→Spread (p ∷ q ∷ ps) s (y, e, sp) = ([], y, e, sp)

Spread→Spans :
    (ps : List Text) (s : Text) → Spread ps s → (x : Text) × (t : Text) × (s ≡ x ++ t) × Spans ps t
Spread→Spans [] s h = absurd h
Spread→Spans (p ∷ []) s (x, e) = (x, p, e, refl)
Spread→Spans (p ∷ q ∷ ps) s (x, y, e, sp) = (x, p ++ y, e, (y, refl, sp))

star-cases : (c : ℕ) → (c ≡ star) ⊎ (c ≢ star)
star-cases c = ground arith

cons_first-ne-nil : (c : ℕ) (ps : List Text) → cons_first c ps ≢ []
cons_first-ne-nil c [] e = cc
cons_first-ne-nil c (p ∷ ps) e = cc

split-ne-nil : (p : Text) → split p star ≢ []
split-ne-nil [] e = unfold split in cc
split-ne-nil (c ∷ p) e = elim (star-cases c) [
  | inl h ↦ cc (split-star c p h)
  | inr h ↦ cons_first-ne-nil c (split p star) (rw (split-byte c p h) at e)
]

whole_cons :
    (c : ℕ) (parts : List Text) (pattern p : Text) (ps : List Text)
    → parts ≢ []
    → ((q : Text) (qs : List Text) → parts ≡ q ∷ qs → qs ≡ [] → pattern ≡ q)
    → cons_first c parts ≡ p ∷ ps
    → ps ≡ []
    → c ∷ pattern ≡ p
whole_cons c [] pattern p ps some_part ih e none_left = absurd (some_part refl)
whole_cons c (q ∷ qs) pattern p ps some_part ih e none_left = ground (arith, ih q qs refl)

-- A text that is one part is that part.
split_whole :
    (pattern p : Text) (ps : List Text) → split pattern star ≡ p ∷ ps → ps ≡ [] → pattern ≡ p
split_whole [] p ps e none_left = unfold split in cc e
split_whole (c ∷ pattern) p ps e none_left = elim (star-cases c) [
  | inl h ↦ absurd (split-ne-nil pattern (ground (arith, split-star c pattern h)))
  | inr h ↦
      whole_cons c (split pattern star) pattern p ps (split-ne-nil pattern) (split_whole pattern)
        (rw (split-byte c pattern h) at e) none_left
]

Spans-star : (ps : List Text) (s : Text) → Spread ps s → Spans ([] ∷ ps) s
Spans-star [] s h = absurd h
Spans-star (p ∷ ps) s h = (s, refl, h)

star-Spread : (ps : List Text) (s : Text) → ps ≢ [] → Spans ([] ∷ ps) s → Spread ps s
star-Spread [] s some_part h = absurd (some_part refl)
star-Spread (p ∷ ps) s some_part (y, e, sp) = subst (Spread (p ∷ ps)) (sym e) sp

Spread-cons : (c : ℕ) (ps : List Text) (s : Text) → Spread ps s → Spread ps (c ∷ s)
Spread-cons c [] s h = absurd h
Spread-cons c (p ∷ []) s (x, e) = (c ∷ x, ap (◌∷◌ c) e)
Spread-cons c (p ∷ q ∷ ps) s (x, y, e, sp) = (c ∷ x, y, ap (◌∷◌ c) e, sp)

Glob→Spans : {p s : Text} → Glob p s → Spans (split p star) s
unfolding split
Glob→Spans empty = refl
Glob→Spans (byte {c} {p} {s} n g) =
    rw (split-byte c p n) (Spans-byte c (split p star) s (Glob→Spans g))
Glob→Spans (leave {c} {p} {s} e g) =
    rw (split-star c p e)
      (Spans-star (split p star) s (Spans→Spread (split p star) s (Glob→Spans g)))
Glob→Spans (take {c} {d} {p} {s} e g) = rw (split-star c p e) (
    Spans-star (split p star) (d ∷ s) (
      Spread-cons d (split p star) s
        (star-Spread (split p star) s (split-ne-nil p) (rw (split-star c p e) at (Glob→Spans g)))))

take_all : {c : ℕ} {p s : Text} (x : Text) → c ≡ star → Glob p s → Glob (c ∷ p) (x ++ s)
take_all [] e g = leave e g
take_all (d ∷ x) e g = take e (take_all x e g)

Spans→Glob : (p s : Text) → Spans (split p star) s → Glob p s
unfolding split
Spans→Glob [] s e = subst (Glob []) (sym e) empty
Spans→Glob (c ∷ p) s h = elim (star-cases c) [
  | inl e ↦
      let (x, t, es, sp) =
        Spread→Spans (split p star) s
          (star-Spread (split p star) s (split-ne-nil p) (rw (split-star c p e) at h)) in
      subst (Glob (c ∷ p)) (sym es) (take_all x e (Spans→Glob p t sp))
  | inr n ↦
      let (t, es, sp) =
        byte-Spans c (split p star) s (split-ne-nil p) (rw (split-byte c p n) at h) in
      subst (Glob (c ∷ p)) (sym es) (byte n (Spans→Glob p t sp))
]

-- The test on the parts, once the list of parts is known to have a first.
parts-Glob :
    (s pattern : Text) (parts : List Text)
    → split pattern star ≡ parts
    → (match_parts s pattern parts ≡ true) ↔ Spans parts s
parts-Glob s pattern [] e = absurd (split-ne-nil pattern e)
parts-Glob s pattern (p ∷ ps) e = (
  match_parts_sound s pattern p ps (split_whole pattern p ps e),
  match_parts_complete s pattern p ps (split_whole pattern p ps e),
)

-- `wildcardMatch` answers true exactly on the texts that the pattern matches.
pub wildcard_match_iff : (s pattern : Text) → (wildcard_match s pattern ≡ true) ↔ Glob pattern s
unfolding wildcard_match
wildcard_match_iff s pattern =
    let (sound, complete) = parts-Glob s pattern (split pattern star) refl in
    (λ h. Spans→Glob pattern s (sound h), λ g. complete (Glob→Spans g))

Glob_refl : (s : Text) → Glob s s
Glob_refl [] = empty
Glob_refl (c ∷ s) = elim (star-cases c) [
  | inl e ↦ take e (leave e (Glob_refl s))
  | inr n ↦ byte n (Glob_refl s)
]

-- A registry matches a pattern exactly if each star of the pattern can be replaced by some text, the
-- empty one included, so that the registry results.
pub matches_pattern_iff : (s pattern : Text) → (matches_pattern s pattern ≡ true) ↔ Glob pattern s
unfolding matches_pattern
matches_pattern_iff s pattern = elim (Bool-cases (text_eq s pattern)) [
  | inl same ↦
      rw same (λ _. subst (λ p. Glob p s) ((text_eq_iff s pattern).0 same) (Glob_refl s), λ _. refl)
  | inr differ ↦ rw differ (wildcard_match_iff s pattern)
]
