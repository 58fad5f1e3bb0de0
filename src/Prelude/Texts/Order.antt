-- ===== src/Prelude/Texts/Order.antt =====
-- The order of Go strings is a strict total order.
use mathlib.Core.Path.{◌≡◌, refl, ap, ◌∙◌}
use mathlib.Core.Logic.{◌⊎◌}
use mathlib.Core.Bool.{true, false}
use mathlib.Core.List.{[], ◌∷◌}
use native.Mathlib.Omega.{arith}
use opendkim_manage_go.Prelude.Texts.{Text, text_ltb}

pub text_ltb_irrefl : (a : Text) → text_ltb a a ≡ false
unfolding text_ltb
text_ltb_irrefl [] = refl
text_ltb_irrefl (x ∷ xs) = ground (arith, text_ltb_irrefl xs)

pub text_ltb_trans :
    (a b c : Text) → text_ltb a b ≡ true → text_ltb b c ≡ true → text_ltb a c ≡ true
unfolding text_ltb
text_ltb_trans [] [] c h k = cc
text_ltb_trans [] (y ∷ ys) [] h k = cc
text_ltb_trans [] (y ∷ ys) (z ∷ zs) h k = refl
text_ltb_trans (x ∷ xs) [] c h k = cc
text_ltb_trans (x ∷ xs) (y ∷ ys) [] h k = cc
text_ltb_trans (x ∷ xs) (y ∷ ys) (z ∷ zs) h k = ground (arith, h, k, text_ltb_trans xs ys zs)

text_ltb-connex : (a b : Text) → text_ltb a b ≡ false → text_ltb b a ≡ false → a ≡ b
unfolding text_ltb
text_ltb-connex [] [] h k = refl
text_ltb-connex [] (y ∷ ys) h k = cc
text_ltb-connex (x ∷ xs) [] h k = cc
text_ltb-connex (x ∷ xs) (y ∷ ys) h k =
    let e : x ≡ y = ground (arith, h, k) in
    let r = text_ltb-connex xs ys (ground (arith, h, k)) (ground (arith, h, k)) in
    ap (λ t. t ∷ xs) e ∙ ap (λ ts. y ∷ ts) r

-- Two strings are in order one way, equal, or in order the other way.
pub text_ltb-cases :
    (a b : Text)
    → ((text_ltb a b ≡ true) × (text_ltb b a ≡ false))
      ⊎ (a ≡ b)
      ⊎ ((text_ltb a b ≡ false) × (text_ltb b a ≡ true))
text_ltb-cases a b = ground (arith, text_ltb-connex a b, text_ltb_trans a b a, text_ltb_irrefl a)
