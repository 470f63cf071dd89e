-- ===== src/Secret/Base64.antt =====
-- base64.StdEncoding, as pkg/secret/types.go and pkg/secret/plugin.go use it for the field `Auth`.
pub mod RoundTrip
use container_image_csi_driv.Base.{
  ℕ, ◌+◌, ◌-◌, ◌*◌, ◌/◌, ◌%◌, Bool, true, false, ◌&&◌, List, [], ◌∷◌, Option, none, some, ltb, leb,
  nat_beq, if◌then◌else◌, is_empty,
}
use container_image_csi_driv.Text.{Text}

abbrev pub pad : ℕ
pad = b'='

-- A..Z, a..z, 0..9, +, /
abbrev pub digit : ℕ → ℕ
digit n =
    if ltb n 26
    then n + 65
    else if ltb n 52
    then n + 71
    else if ltb n 62
    then n - 4
    else if nat_beq n 62
    then 43
    else 47

abbrev pub value_of : ℕ → Option ℕ
value_of c =
    if leb 65 c && leb c 90
    then some (c - 65)
    else if leb 97 c && leb c 122
    then some (c - 71)
    else if leb 48 c && leb c 57
    then some (c + 4)
    else if nat_beq c 43
    then some 62
    else if nat_beq c 47
    then some 63
    else none

-- EncodeToString: three bytes to four digits, the last group padded.
unfoldable pub encode : Text → Text
encode [] = []
encode (a ∷ []) = digit (a / 4) ∷ digit (a % 4 * 16) ∷ pad ∷ pad ∷ []
encode (a ∷ b ∷ []) = digit (a / 4) ∷ digit (a % 4 * 16 + b / 16) ∷ digit (b % 16 * 4) ∷ pad ∷ []
encode (a ∷ b ∷ c ∷ s) =
    digit (a / 4)
    ∷ digit (a % 4 * 16 + b / 16)
    ∷ digit (b % 16 * 4 + c / 64)
    ∷ digit (c % 64)
    ∷ encode s

-- The bytes of a group of two, three or four digits; the bits left over are dropped.
bytes_2 : Option ℕ → Option ℕ → Option Text
bytes_2 (some a) (some b) = some ((a * 4 + b / 16) ∷ [])
bytes_2 _ _ = none

bytes_3 : Option ℕ → Option ℕ → Option ℕ → Option Text
bytes_3 (some a) (some b) (some c) = some ((a * 4 + b / 16) ∷ (b % 16 * 16 + c / 4) ∷ [])
bytes_3 _ _ _ = none

bytes_4 : Option ℕ → Option ℕ → Option ℕ → Option ℕ → Option Text → Option Text
bytes_4 (some a) (some b) (some c) (some d) (some more) =
    some ((a * 4 + b / 16) ∷ (b % 16 * 16 + c / 4) ∷ (c % 4 * 64 + d) ∷ more)
bytes_4 _ _ _ _ _ = none

-- One group after another. Padding ends the text, in the last group alone.
decode_groups : Text → Option Text
decode_groups [] = some []
decode_groups (a ∷ b ∷ c ∷ d ∷ s) =
    let more = decode_groups s in
    if nat_beq d pad
    then (if is_empty s
        then (if nat_beq c pad
            then bytes_2 (value_of a) (value_of b)
            else bytes_3 (value_of a) (value_of b) (value_of c))
        else none)
    else bytes_4 (value_of a) (value_of b) (value_of c) (value_of d) more
decode_groups _ = none

-- The decoder skips line ends.
skip_line_ends : Text → Text
skip_line_ends [] = []
skip_line_ends (c ∷ s) =
    let rest = skip_line_ends s in
    if nat_beq c 10 then rest else if nat_beq c 13 then rest else c ∷ rest

-- DecodeString
unfoldable pub decode : Text → Option Text
unfolding decode_groups skip_line_ends bytes_2 bytes_3 bytes_4
decode s = decode_groups (skip_line_ends s)
