-- ===== src/Common/Texts.antt =====
-- Text as the sequence of its UTF-16 code units, with the comparisons `===` and `<` of the source.
use Prim.Native.Nat.{ℕ}
use Prim.Native.Char.{code}
use Prim.Native.String.{String}
use mathlib.Core.Path.{◌≡◌, refl}
use mathlib.Core.Logic.{◌↔◌}
use mathlib.Core.Bool.{Bool, true, false, ◌&&◌, ◌||◌}
use mathlib.Core.List.{List, [], ◌∷◌}
use native.Mathlib.Omega.{arith}
use agent_experience_agentic.Common.Tests.{ltb, nat_eq}

abbrev pub Text : Type 0
Text = List ℕ

-- A literal whose characters are all below U+10000.
abbrev pub codes : String → Text
codes String.[] = []
codes (String.◌∷◌ c s) = code c ∷ codes s

infix 50 ◌==◌
unfoldable pub ◌==◌ : Text → Text → Bool
[] == [] = true
[] == (_ ∷ _) = false
(_ ∷ _) == [] = false
(a ∷ s) == (b ∷ t) = nat_eq a b && s == t

unfoldable pub text_lt : Text → Text → Bool
text_lt [] [] = false
text_lt [] (_ ∷ _) = true
text_lt (_ ∷ _) [] = false
text_lt (a ∷ s) (b ∷ t) = let rest = text_lt s t in ltb a b || (nat_eq a b && rest)

pub ==_refl : (s : Text) → s == s ≡ true
unfolding ◌==◌
==_refl [] = refl
==_refl (a ∷ s) = ground (arith, ==_refl s)

pub ==_sound : (s t : Text) → s == t ≡ true → s ≡ t
unfolding ◌==◌
==_sound [] [] h = refl
==_sound [] (_ ∷ _) h = cc
==_sound (_ ∷ _) [] h = cc
==_sound (a ∷ s) (b ∷ t) h = ground (arith, ==_sound s t)

pub ==_iff : (s t : Text) → (s == t ≡ true) ↔ (s ≡ t)
==_iff s t = (==_sound s t, λ e. rw e (==_refl t))

pub text_lt_irrefl : (s : Text) → text_lt s s ≡ false
unfolding text_lt
text_lt_irrefl [] = refl
text_lt_irrefl (a ∷ s) = ground (arith, text_lt_irrefl s)

pub text_lt_asymm : (s t : Text) → text_lt s t ≡ true → text_lt t s ≡ false
unfolding text_lt
text_lt_asymm [] [] h = cc
text_lt_asymm [] (_ ∷ _) h = refl
text_lt_asymm (_ ∷ _) [] h = cc
text_lt_asymm (a ∷ s) (b ∷ t) h = ground (arith, text_lt_asymm s t)

-- Not being below is transitive.
pub text_ge_trans : (s t u : Text) → text_lt s t ≡ false → text_lt t u ≡ false → text_lt s u ≡ false
unfolding text_lt
text_ge_trans [] [] [] h k = refl
text_ge_trans [] [] (_ ∷ _) h k = cc
text_ge_trans [] (_ ∷ _) u h k = cc
text_ge_trans (_ ∷ _) [] [] h k = refl
text_ge_trans (_ ∷ _) [] (_ ∷ _) h k = cc
text_ge_trans (_ ∷ _) (_ ∷ _) [] h k = refl
text_ge_trans (a ∷ s) (b ∷ t) (c ∷ u) h k = ground (arith, text_ge_trans s t u)

-- Two texts neither of which is below the other are equal.
pub text_lt_total : (s t : Text) → text_lt s t ≡ false → text_lt t s ≡ false → s ≡ t
unfolding text_lt
text_lt_total [] [] h k = refl
text_lt_total [] (_ ∷ _) h k = cc
text_lt_total (_ ∷ _) [] h k = cc
text_lt_total (a ∷ s) (b ∷ t) h k = ground (arith, text_lt_total s t)
