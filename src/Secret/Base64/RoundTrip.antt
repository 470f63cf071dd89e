-- ===== src/Secret/Base64/RoundTrip.antt =====
-- Decoding what was encoded gives the bytes back.
use container_image_csi_driv.Base.{
  ℕ, ◌+◌, ◌*◌, ◌/◌, ◌%◌, ◌<◌, ◌≡◌, refl, ap, ◌∙◌, false, [], ◌∷◌, some, arith, nat_beq, All,
}
use container_image_csi_driv.Text.{Text}
use container_image_csi_driv.Secret.Base64.{
  pad, digit, value_of, encode, decode, decode_groups, skip_line_ends, bytes_2, bytes_3, bytes_4,
}

abbrev pub Bytes : Text → Type 0
Bytes = All (λ c. c < 256)

-- A digit is read back, and is neither padding nor a line end.
value_of-digit : (n : ℕ) → n < 64 → value_of (digit n) ≡ some n
value_of-digit n h = ground arith

digit_plain :
    (n : ℕ)
    → n < 64
    → (nat_beq (digit n) pad ≡ false)
      × (nat_beq (digit n) 10 ≡ false)
      × (nat_beq (digit n) 13 ≡ false)
digit_plain n h = ground arith

first_byte : (a b : ℕ) → b < 256 → a / 4 * 4 + (a % 4 * 16 + b / 16) / 16 ≡ a
first_byte a b hb = omega arith

second_byte :
    (a b c : ℕ)
    → b < 256
    → c < 256
    → (a % 4 * 16 + b / 16) % 16 * 16 + (b % 16 * 4 + c / 64) / 4 ≡ b
second_byte a b c hb hc = omega arith

third_byte : (b c : ℕ) → c < 256 → (b % 16 * 4 + c / 64) % 4 * 64 + c % 64 ≡ c
third_byte b c hc = omega arith

last_byte : (a b : ℕ) → b < 256 → (a % 4 * 16 + b / 16) % 16 * 16 + b % 16 * 4 / 4 ≡ b
last_byte a b hb = omega arith

skip-digit : (n : ℕ) (s : Text) → n < 64 → skip_line_ends (digit n ∷ s) ≡ digit n ∷ skip_line_ends s
unfolding skip_line_ends
skip-digit n s h = let (p, q, r) = digit_plain n h in rw (q, r) refl

skip-pad : (s : Text) → skip_line_ends (pad ∷ s) ≡ pad ∷ skip_line_ends s
unfolding skip_line_ends
skip-pad s = refl

-- What is encoded has no line ends.
skip-encode : (s : Text) → Bytes s → skip_line_ends (encode s) ≡ encode s
unfolding encode skip_line_ends
skip-encode [] h = refl
skip-encode (a ∷ []) (ha, _) = ground (arith, digit_plain (a / 4), digit_plain (a % 4 * 16))
skip-encode (a ∷ b ∷ []) (ha, (hb, _)) =
    ground (arith, digit_plain (a / 4), digit_plain (a % 4 * 16 + b / 16), digit_plain (b % 16 * 4))
skip-encode (a ∷ b ∷ c ∷ s) (ha, (hb, (hc, h))) = ground (
  arith,
  digit_plain (a / 4),
  digit_plain (a % 4 * 16 + b / 16),
  digit_plain (b % 16 * 4 + c / 64),
  digit_plain (c % 64),
  skip-encode s h,
)

group_2 :
    (m n : ℕ)
    → m < 64
    → n < 64
    → decode_groups (digit m ∷ digit n ∷ pad ∷ pad ∷ []) ≡ some ((m * 4 + n / 16) ∷ [])
unfolding decode_groups bytes_2
group_2 m n hm hn = rw (value_of-digit m hm, value_of-digit n hn) refl

group_3 :
    (m n k : ℕ)
    → m < 64
    → n < 64
    → k < 64
    → decode_groups (digit m ∷ digit n ∷ digit k ∷ pad ∷ [])
      ≡ some ((m * 4 + n / 16) ∷ (n % 16 * 16 + k / 4) ∷ [])
unfolding decode_groups bytes_3
group_3 m n k hm hn hk =
    rw ((digit_plain k hk).0, value_of-digit m hm, value_of-digit n hn, value_of-digit k hk) refl

group_4 :
    (m n k l : ℕ) (s rest : Text)
    → m < 64
    → n < 64
    → k < 64
    → l < 64
    → decode_groups s ≡ some rest
    → decode_groups (digit m ∷ digit n ∷ digit k ∷ digit l ∷ s)
      ≡ some ((m * 4 + n / 16) ∷ (n % 16 * 16 + k / 4) ∷ (k % 4 * 64 + l) ∷ rest)
unfolding decode_groups bytes_4
group_4 m n k l s rest hm hn hk hl e =
    rw
      (
        (digit_plain l hl).0,
        value_of-digit m hm,
        value_of-digit n hn,
        value_of-digit k hk,
        value_of-digit l hl,
        e,
      )
      refl

decode_groups-encode : (s : Text) → Bytes s → decode_groups (encode s) ≡ some s
unfolding encode decode_groups
decode_groups-encode [] h = refl
decode_groups-encode (a ∷ []) (ha, _) =
    let e : a / 4 * 4 + a % 4 * 16 / 16 ≡ a = omega arith in
    group_2 (a / 4) (a % 4 * 16) (omega arith) (omega arith) ∙ ap (λ x. some (x ∷ [])) e
decode_groups-encode (a ∷ b ∷ []) (ha, (hb, _)) =
    group_3 (a / 4) (a % 4 * 16 + b / 16) (b % 16 * 4) (omega arith) (omega arith) (omega arith)
    ∙ rw (first_byte a b hb, last_byte a b hb) refl
decode_groups-encode (a ∷ b ∷ c ∷ s) (ha, (hb, (hc, h))) =
    group_4 (a / 4) (a % 4 * 16 + b / 16) (b % 16 * 4 + c / 64) (c % 64) (encode s) s (omega arith)
      (omega arith) (omega arith) (omega arith) (decode_groups-encode s h)
    ∙ rw (first_byte a b hb, second_byte a b c hb hc, third_byte b c hc) refl

-- Decoding the encoding of bytes gives the bytes back.
pub decode-encode : (s : Text) → Bytes s → decode (encode s) ≡ some s
unfolding decode
decode-encode s h = rw (skip-encode s h) (decode_groups-encode s h)
