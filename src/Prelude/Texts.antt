-- ===== src/Prelude/Texts.antt =====
-- A Go string or byte slice, as the list of its bytes.
pub mod Order
use Prim.Native.Char.{code}
use Prim.Native.Nat.{ℕ}
use Prim.Native.String.{String}
use mathlib.Core.Path.{◌≡◌, refl}
use mathlib.Core.Logic.{◌↔◌}
use mathlib.Core.Bool.{Bool, true, false, ◌&&◌}
use mathlib.Core.List.{List, [], ◌∷◌}
use native.Mathlib.Omega.{arith}
use opendkim_manage_go.Prelude.Tests.{ltb, nat_beq, if◌then◌else◌}
use opendkim_manage_go.Prelude.Equality.{Eq}

abbrev pub Text : Type 0
Text = List ℕ

-- The bytes of an ASCII literal.
abbrev pub codes : String → Text
codes String.[] = []
codes (String.◌∷◌ c s) = code c ∷ codes s

unfoldable pub text_beq : Text → Text → Bool
text_beq [] [] = true
text_beq [] (_ ∷ _) = false
text_beq (_ ∷ _) [] = false
text_beq (x ∷ xs) (y ∷ ys) = nat_beq x y && text_beq xs ys

eq_of_text_beq : (a b : Text) → text_beq a b ≡ true → a ≡ b
unfolding text_beq
eq_of_text_beq [] [] h = refl
eq_of_text_beq [] (y ∷ b) h = cc
eq_of_text_beq (x ∷ a) [] h = cc
eq_of_text_beq (x ∷ a) (y ∷ b) h = ground (arith, eq_of_text_beq a b)

text_beq_refl : (a : Text) → text_beq a a ≡ true
unfolding text_beq
text_beq_refl [] = refl
text_beq_refl (x ∷ a) = ground (arith, text_beq_refl a)

pub text_beq_iff : (a b : Text) → (text_beq a b ≡ true) ↔ (a ≡ b)
text_beq_iff a b = (eq_of_text_beq a b, λ p. rw p (text_beq_refl b))

instance abbrev pub text_eq : Eq Text
text_eq = record { beq = text_beq; beq_iff = text_beq_iff }

-- `left < right` on Go strings: the bytes in order.
unfoldable pub text_ltb : Text → Text → Bool
text_ltb [] [] = false
text_ltb [] (_ ∷ _) = true
text_ltb (_ ∷ _) [] = false
text_ltb (x ∷ xs) (y ∷ ys) =
    let rest = text_ltb xs ys in if ltb x y then true else (if nat_beq x y then rest else false)
