-- ===== src/Strings/Join.antt =====
-- strings.Join with one byte between the parts.
use container_image_csi_driv.Base.{
  ℕ, ◌≡◌, refl, sym, ap, ◌∙◌, Bool, true, false, List, [], ◌∷◌, ◌++◌, arith, nat_beq, nat_beq_iff,
  All, if◌then◌else◌, Bool-cases, inl, inr,
}
use container_image_csi_driv.Text.{Text}
use container_image_csi_driv.Strings.{split}

unfoldable pub join : List Text → ℕ → Text
join [] sep = []
join (s ∷ []) sep = s
join (s ∷ (t ∷ parts)) sep = s ++ (sep ∷ join (t ∷ parts) sep)

-- The byte is not in the part.
abbrev pub lacks : ℕ → Text → Bool
lacks sep [] = true
lacks sep (c ∷ s) = if nat_beq c sep then false else lacks sep s

split_whole : (sep : ℕ) (s : Text) → lacks sep s ≡ true → split s sep ≡ s ∷ []
unfolding split
split_whole sep [] h = refl
split_whole sep (c ∷ s) h = ground (arith, split_whole sep s)

split_first :
    (sep : ℕ) (s t : Text) → lacks sep s ≡ true → split (s ++ sep ∷ t) sep ≡ s ∷ split t sep
unfolding split
split_first sep [] t h = ground (arith, nat_beq_iff sep sep)
split_first sep (c ∷ s) t h = ground (arith, split_first sep s t)

-- Parts without the byte, one at least, are read back.
pub split-join :
    (sep : ℕ) (s : Text) (parts : List Text)
    → lacks sep s ≡ true
    → All (λ p. lacks sep p ≡ true) parts
    → split (join (s ∷ parts) sep) sep ≡ s ∷ parts
unfolding join
split-join sep s [] h k = split_whole sep s h
split-join sep s (t ∷ parts) h k =
    split_first sep s (join (t ∷ parts) sep) h ∙ ap (◌∷◌ s) (split-join sep t parts k.0 k.1)

join-cons :
    (sep c : ℕ) (s : Text) (parts : List Text)
    → join ((c ∷ s) ∷ parts) sep ≡ c ∷ join (s ∷ parts) sep
unfolding join
join-cons sep c s [] = refl
join-cons sep c s (t ∷ parts) = refl

-- Parts without the byte, one at least, that make the text.
pub record Parts (sep : ℕ) (s : Text) : Type 0 where
  pub head : Text
  pub tail : List Text
  pub read : split s sep ≡ head ∷ tail
  pub head_lacks : lacks sep head ≡ true
  pub tail_lacks : All (λ p. lacks sep p ≡ true) tail
  pub joined : s ≡ join (head ∷ tail) sep

add_byte : (sep c : ℕ) (s : Text) → Parts sep s → Parts sep (c ∷ s)
unfolding split join
add_byte sep c s p = elim (Bool-cases (nat_beq c sep)) [
  | inl same ↦ record {
    head = [];
    tail = p.head ∷ p.tail;
    read = rw (same, p.read) refl;
    head_lacks = refl;
    tail_lacks = (p.head_lacks, p.tail_lacks);
    joined = ap (λ b. b ∷ s) ((nat_beq_iff c sep).0 same) ∙ ap (◌∷◌ sep) p.joined;
  }
  | inr other ↦ record {
    head = c ∷ p.head;
    tail = p.tail;
    read = rw (other, p.read) refl;
    head_lacks = rw other p.head_lacks;
    tail_lacks = p.tail_lacks;
    joined = ap (◌∷◌ c) p.joined ∙ sym (join-cons sep c p.head p.tail);
  }
]

-- Every text is made of its parts.
pub split-Parts : (sep : ℕ) (s : Text) → Parts sep s
unfolding split join
split-Parts sep [] = record {
  head = [];
  tail = [];
  read = refl;
  head_lacks = refl;
  tail_lacks = tt;
  joined = refl;
}
split-Parts sep (c ∷ s) = add_byte sep c s (split-Parts sep s)
