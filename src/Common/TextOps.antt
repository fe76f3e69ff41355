-- ===== src/Common/TextOps.antt =====
-- The string methods that the source calls: `trim`, `split`, `join`, `replaceAll` and `includes`
-- of one code unit, `startsWith` and `slice`.
use Prim.Native.Nat.{ℕ, zero, suc}
use mathlib.Core.Path.{◌≡◌, refl, ap, ◌∙◌}
use mathlib.Core.Logic.{◌↔◌, inl, inr}
use mathlib.Core.Bool.{Bool, true, false, ◌&&◌, ◌||◌}
use mathlib.Core.List.{List, [], ◌∷◌, ◌++◌, reverse}
use native.Mathlib.Omega.{arith}
use agent_experience_agentic.Common.Tests.{nat_eq, leb, if◌then◌else◌, Bool-cases}
use agent_experience_agentic.Common.Lists.{any, All, All-append}
use agent_experience_agentic.Common.Texts.{Text}

-- WhiteSpace and LineTerminator of ECMAScript, which `trim` removes.
unfoldable pub is_space : ℕ → Bool
is_space c =
    (leb 9 c && leb c 13)
    || nat_eq c 0x20
    || nat_eq c 0xa0
    || nat_eq c 0x1680
    || (leb 0x2000 c && leb c 0x200a)
    || nat_eq c 0x2028
    || nat_eq c 0x2029
    || nat_eq c 0x202f
    || nat_eq c 0x205f
    || nat_eq c 0x3000
    || nat_eq c 0xfeff

unfoldable pub trim_start : Text → Text
unfolding is_space
trim_start [] = []
trim_start (c ∷ s) = let rest = trim_start s in if is_space c then rest else c ∷ s

unfoldable pub trim : Text → Text
unfolding trim_start
trim s = reverse (trim_start (reverse (trim_start s)))

abbrev pub is_empty : Text → Bool
is_empty [] = true
is_empty (_ ∷ _) = false

-- A code unit goes in front of the first part.
abbrev cons_first : ℕ → List Text → List Text
cons_first c [] = (c ∷ []) ∷ []
cons_first c (w ∷ ws) = (c ∷ w) ∷ ws

unfoldable pub split : ℕ → Text → List Text
split sep [] = [] ∷ []
split sep (c ∷ s) =
    let parts = split sep s in if nat_eq c sep then [] ∷ parts else cons_first c parts

unfoldable pub join : ℕ → List Text → Text
join sep [] = []
join sep (w ∷ []) = w
join sep (w ∷ v ∷ vs) = w ++ sep ∷ join sep (v ∷ vs)

unfoldable pub replace_all : ℕ → ℕ → Text → Text
replace_all from to [] = []
replace_all from to (c ∷ s) =
    let rest = replace_all from to s in (if nat_eq c from then to else c) ∷ rest

abbrev pub includes_unit : ℕ → Text → Bool
includes_unit u s = any (nat_eq u) s

abbrev pub starts_with : Text → Text → Bool
starts_with [] s = true
starts_with (p ∷ ps) [] = false
starts_with (p ∷ ps) (c ∷ s) = nat_eq p c && starts_with ps s

-- `s.slice(n)`, past the end too.
abbrev pub slice_from : ℕ → Text → Text
slice_from zero s = s
slice_from (suc n) [] = []
slice_from (suc n) (c ∷ s) = slice_from n s

-- The text has no unit `sep`.
abbrev pub Lacks : ℕ → Text → Type 0
Lacks sep s = All (λ c. nat_eq c sep ≡ false) s

pub split-Lacks : (sep : ℕ) (s : Text) → All (Lacks sep) (split sep s)
unfolding split
split-Lacks sep [] = (tt, tt)
split-Lacks sep (c ∷ s) = elim (Bool-cases (nat_eq c sep)) [
  | inl t ↦ rw t (tt, split-Lacks sep s)
  | inr f ↦ rw f (extended (split sep s) f (split-Lacks sep s))
]
  where
    extended :
        (ws : List Text)
        → nat_eq c sep ≡ false
        → All (Lacks sep) ws
        → All (Lacks sep) (cons_first c ws)
    extended [] f h = ((f, tt), tt)
    extended (w ∷ ws) f h = ((f, h.0), h.1)

split_word : (sep : ℕ) (w : Text) → Lacks sep w → split sep w ≡ w ∷ []
unfolding split
split_word sep [] h = refl
split_word sep (c ∷ w) h = rw (h.0, split_word sep w h.1)

split_first : (sep : ℕ) (w s : Text) → Lacks sep w → split sep (w ++ sep ∷ s) ≡ w ∷ split sep s
unfolding split
split_first sep [] s h = ground arith
split_first sep (c ∷ w) s h = rw (h.0, split_first sep w s h.1)

-- Parts that lack the separator come back from their join.
pub split-join :
    (sep : ℕ) (w : Text) (ws : List Text)
    → All (Lacks sep) (w ∷ ws)
    → split sep (join sep (w ∷ ws)) ≡ w ∷ ws
unfolding join
split-join sep w [] h = split_word sep w h.0
split-join sep w (v ∷ vs) h =
    split_first sep w (join sep (v ∷ vs)) h.0 ∙ ap (◌∷◌ w) (split-join sep v vs h.1)

-- What holds of every unit of a text holds of every unit of its parts, and back.
pub All-split {κ} : (P : ℕ → Type κ) (sep : ℕ) (s : Text) → All P s → All (All P) (split sep s)
unfolding split
All-split P sep [] h = (tt, tt)
All-split P sep (c ∷ s) h = elim (Bool-cases (nat_eq c sep)) [
  | inl t ↦ rw t (tt, All-split P sep s h.1)
  | inr f ↦ rw f (extended (split sep s) (All-split P sep s h.1))
]
  where
    extended : (ws : List Text) → All (All P) ws → All (All P) (cons_first c ws)
    extended [] k = ((h.0, tt), tt)
    extended (w ∷ ws) k = ((h.0, k.0), k.1)

pub All-join {κ} :
    (P : ℕ → Type κ) (sep : ℕ) (ws : List Text) → P sep → All (All P) ws → All P (join sep ws)
unfolding join
All-join P sep [] p h = tt
All-join P sep (w ∷ []) p h = h.0
All-join P sep (w ∷ v ∷ vs) p h =
    All-append P w (sep ∷ join sep (v ∷ vs)) h.0 (p, All-join P sep (v ∷ vs) p h.1)

pub includes_unit-Lacks :
    (u : ℕ) (s : Text) → (includes_unit u s ≡ false) ↔ All (λ c. nat_eq u c ≡ false) s
includes_unit-Lacks u [] = (λ h. tt, λ h. refl)
includes_unit-Lacks u (c ∷ s) = ground (arith, includes_unit-Lacks u s)
