-- ===== src/Secret/Wildcard.antt =====
-- pkg/secret/plugin.go: `matchesPattern` and `wildcardMatch`, the image patterns of credential
-- plugins. A pattern is cut at its stars, and the parts are looked for from left to right.
pub mod Parts
pub mod Glob
mod Samples
use container_image_csi_driv.Base.{
  ℕ, ◌+◌, ◌-◌, Bool, true, false, ◌||◌, List, [], ◌∷◌, none, some, ltb, if◌then◌else◌, length,
  is_empty, take, drop,
}
use container_image_csi_driv.Text.{Text, text_eq}
use container_image_csi_driv.Strings.{has_prefix, has_suffix, index, split}

abbrev pub star : ℕ
star = b'*'

-- parts[len(parts)-1]
abbrev pub last_part : List Text → Text
last_part [] = []
last_part (p ∷ []) = p
last_part (p ∷ q ∷ ps) = last_part (q ∷ ps)

-- The parts before the last.
abbrev pub inner_parts : List Text → List Text
inner_parts [] = []
inner_parts (p ∷ []) = []
inner_parts (p ∷ q ∷ ps) = p ∷ inner_parts (q ∷ ps)

-- Check middle parts
match_middle : Text → List Text → Bool
match_middle s [] = true
match_middle s (p ∷ ps) = elim (is_empty p) [
  | true ↦ match_middle s ps
  | false ↦ elim (index s p) [ none ↦ false | some i ↦ match_middle (drop (i + length p) s) ps ]
]

-- Check if string ends with last part
match_rest : Text → List Text → Bool
match_rest s rest =
    let last = last_part rest in
    if ltb 0 (length last)
    then (if has_suffix s last
        then match_middle (take (length s - length last) s) (inner_parts rest)
        else false)
    else match_middle s (inner_parts rest)

-- strings.Split gives one part at least, so the first clause is not met.
pub match_parts : Text → Text → List Text → Bool
match_parts s pattern [] = false
match_parts s pattern (p ∷ []) = text_eq s pattern
match_parts s pattern (p ∷ q ∷ rest) =
    if has_prefix s p then match_rest (drop (length p) s) (q ∷ rest) else false

unfoldable pub wildcard_match : Text → Text → Bool
unfolding match_parts match_rest match_middle
wildcard_match s pattern = match_parts s pattern (split pattern star)

unfoldable pub matches_pattern : Text → Text → Bool
unfolding wildcard_match
matches_pattern s pattern = if text_eq s pattern then true else wildcard_match s pattern
