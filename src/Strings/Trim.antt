-- ===== src/Strings/Trim.antt =====
-- strings.TrimSpace and strings.Trim, over ASCII.
use container_image_csi_driv.Base.{
  ℕ, Bool, ◌&&◌, ◌||◌, [], ◌∷◌, nat_beq, leb, if◌then◌else◌, is_empty,
}
use container_image_csi_driv.Text.{Text}

module _ (cut : ℕ → Bool) where
  unfoldable pub trim_left : Text → Text
  trim_left [] = []
  trim_left (c ∷ s) = let rest = trim_left s in if cut c then rest else c ∷ s

  unfoldable pub trim_right : Text → Text
  trim_right [] = []
  trim_right (c ∷ s) = let rest = trim_right s in if cut c && is_empty rest then [] else c ∷ rest

-- A space, or one of \t \n \v \f \r.
abbrev pub is_space : ℕ → Bool
is_space c = nat_beq c 32 || leb 9 c && leb c 13

unfoldable pub trim_space : Text → Text
unfolding trim_left trim_right
trim_space s = trim_right is_space (trim_left is_space s)

-- strings.Trim with one byte to cut
unfoldable pub trim : Text → ℕ → Text
unfolding trim_left trim_right
trim s c = trim_right (nat_beq c) (trim_left (nat_beq c) s)
