-- ===== src/Platform/Texts.antt =====
-- Comparisons of Go strings and of TEXT columns.
use infraestructura_y_servic.Base.{◌≡◌, refl, Bool, true, false, ◌&&◌, [], ◌∷◌, ◌==◌, arith}
use infraestructura_y_servic.Platform.Pgconv.{Text}

abbrev pub same_text : Text → Text → Bool
same_text [] [] = true
same_text [] (_ ∷ _) = false
same_text (_ ∷ _) [] = false
same_text (a ∷ s) (b ∷ t) = a == b && same_text s t

abbrev pub is_blank : Text → Bool
is_blank [] = true
is_blank (_ ∷ _) = false

pub same_text_eq : (a b : Text) → same_text a b ≡ true → a ≡ b
same_text_eq [] [] h = refl
same_text_eq [] (y ∷ b) h = absurd (ground arith)
same_text_eq (x ∷ a) [] h = absurd (ground arith)
same_text_eq (x ∷ a) (y ∷ b) h = ground (arith, same_text_eq a b)

pub same_text_refl : (a : Text) → same_text a a ≡ true
same_text_refl [] = refl
same_text_refl (x ∷ a) = ground (arith, same_text_refl a)
