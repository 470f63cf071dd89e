-- ===== src/Text.antt =====
-- Go strings as byte lists, with the operations of the package `strings` that the driver calls.
use Prim.Native.Char.{code}
use Prim.Native.String.{String}
use container_image_csi_driv.Base.{
  ℕ, ◌≡◌, refl, ◌≢◌, ◌↔◌, Bool, true, false, ◌&&◌, List, [], ◌∷◌, arith, nat_beq, MapKey,
}

abbrev pub Text : Type 0
Text = List ℕ

-- The bytes of an ASCII literal.
abbrev pub codes : String → Text
codes String.[] = []
codes (String.◌∷◌ letter rest) = code letter ∷ codes rest

unfoldable pub text_eq : Text → Text → Bool
text_eq [] [] = true
text_eq (x ∷ xs) (y ∷ ys) = nat_beq x y && text_eq xs ys
text_eq _ _ = false

pub text_eq_iff : (a b : Text) → (text_eq a b ≡ true) ↔ (a ≡ b)
unfolding text_eq
text_eq_iff [] [] = (λ _. refl, λ _. refl)
text_eq_iff [] (y ∷ ys) = (λ h. cc, λ h. cc)
text_eq_iff (x ∷ xs) [] = (λ h. cc, λ h. cc)
text_eq_iff (x ∷ xs) (y ∷ ys) = ground (arith, text_eq_iff xs ys)

instance abbrev pub Text-eq : MapKey Text
Text-eq = record { matches = text_eq; matches_iff = text_eq_iff }

pub ne_of_text_eq : (a b : Text) → text_eq a b ≡ false → a ≢ b
ne_of_text_eq a b h e = cc ((text_eq_iff a b).1 e)
