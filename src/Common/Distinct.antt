-- ===== src/Common/Distinct.antt =====
-- Sets of texts in insertion order, and lists with no repetition.
use Prim.Native.Nat.{suc, ◌≤◌}
use mathlib.Core.Path.{◌≡◌, refl, ap, sym, ◌∙◌}
use mathlib.Core.Logic.{◌≢◌, inl, inr}
use mathlib.Core.Bool.{Bool, true, false}
use mathlib.Core.List.{List, [], ◌∷◌, Memᴰ}
use native.Mathlib.Omega.{arith}
use agent_experience_agentic.Common.Tests.{if◌then◌else◌, nat_eq, Bool-cases}
use agent_experience_agentic.Common.Lists.{length, any, All, All-mono}
use agent_experience_agentic.Common.Texts.{Text, ◌==◌, ==_refl, ==_iff}

-- `[...new Set(texts)]`: the first of each.
unfoldable pub unique_from : List Text → List Text → List Text
unique_from seen [] = []
unique_from seen (t ∷ ts) =
    let fresh = t ∷ unique_from (t ∷ seen) ts in
    let rest = unique_from seen ts in if any (◌==◌ t) seen then rest else fresh

-- `new Set(texts).size === texts.length`.
unfoldable pub is_duplicate_free : List Text → Bool
is_duplicate_free texts = nat_eq (length (unique_from [] texts)) (length texts)

-- The texts are pairwise different.
abbrev pub IsDistinct : List Text → Type 0
IsDistinct [] = Unit {0}
IsDistinct (x ∷ xs) = All (λ y. x ≢ y) xs × IsDistinct xs

length-unique_from-le : (seen ts : List Text) → length (unique_from seen ts) ≤ length ts
unfolding unique_from
length-unique_from-le seen [] = omega arith
length-unique_from-le seen (t ∷ ts) =
    ground (arith, length-unique_from-le seen ts, length-unique_from-le (t ∷ seen) ts)

unique_from-IsDistinct :
    (seen ts : List Text)
    → length (unique_from seen ts) ≡ length ts
    → All (λ y. any (◌==◌ y) seen ≡ false) ts × IsDistinct ts
unfolding unique_from
unique_from-IsDistinct seen [] h = (tt, tt)
unique_from-IsDistinct seen (t ∷ ts) h = elim (Bool-cases (any (◌==◌ t) seen)) [
  | inl old ↦ let le = length-unique_from-le seen ts in absurd (ground arith)
  | inr new ↦
      let kept : length (unique_from (t ∷ seen) ts) ≡ length ts = ground arith in
      let (apart, rest) = unique_from-IsDistinct (t ∷ seen) ts kept in
      (
        (new, All-mono ts (λ y a. ground arith) apart),
        (All-mono ts (λ y a e. let r = ==_refl y in ground arith) apart, rest),
      )
]

-- A set of all the texts is as long as the list only if no text repeats.
pub is_duplicate_free_sound : (ts : List Text) → is_duplicate_free ts ≡ true → IsDistinct ts
unfolding is_duplicate_free
is_duplicate_free_sound ts h = (unique_from-IsDistinct [] ts (ground arith)).1

-- A member is taken out of a list, and the others stay.
without {ℓ} :
    {A : Type ℓ} {x : A} (ys : List A)
    → Memᴰ x ys
    → (zs : List A) × (length ys ≡ suc (length zs)) × ((y : A) → x ≢ y → Memᴰ y ys → Memᴰ y zs)
without [] m = elim m [ ]
without {x} (y ∷ ys) (Memᴰ.head e) = (ys, refl, others)
  where
    others : (z : _) → x ≢ z → Memᴰ z (y ∷ ys) → Memᴰ z ys
    others z apart (Memᴰ.head e') = absurd (apart (e ∙ sym e'))
    others z apart (Memᴰ.tail n) = n
without {x} (y ∷ ys) (Memᴰ.tail m) =
    let (zs, shorter, keep) = without ys m in
    (
      y ∷ zs,
      ap suc shorter,
      λ z apart n. elim n [ Memᴰ.head e ↦ Memᴰ.head e | Memᴰ.tail k ↦ Memᴰ.tail (keep z apart k) ],
    )

-- Different members of a list are no more than the list has.
pub length-IsDistinct-le :
    (xs ys : List Text) → IsDistinct xs → All (λ x. Memᴰ x ys) xs → length xs ≤ length ys
length-IsDistinct-le [] ys d h = omega arith
length-IsDistinct-le (x ∷ xs) ys d h =
    let (zs, shorter, keep) = without ys h.0 in
    let rest = length-IsDistinct-le xs zs d.1 (kept zs keep xs d.0 h.1) in omega arith
  where
    kept :
        (zs : List Text)
        → ((y : Text) → x ≢ y → Memᴰ y ys → Memᴰ y zs)
        → (us : List Text) → All (λ y. x ≢ y) us
        → All (λ y. Memᴰ y ys) us
        → All (λ y. Memᴰ y zs) us
    kept zs keep [] a b = tt
    kept zs keep (u ∷ us) a b = (keep u a.0 b.0, kept zs keep us a.1 b.1)

-- A text that a list does not have differs from each of its texts.
pub fresh-All : (t : Text) (ts : List Text) → any (◌==◌ t) ts ≡ false → All (λ s. t ≢ s) ts
fresh-All t [] h = tt
fresh-All t (s ∷ ts) h = elim (Bool-cases (t == s)) [
  | inl e ↦ absurd (ground arith)
  | inr f ↦ ((λ e. ground (arith, ==_iff t s)), fresh-All t ts (rw f at h))
]

-- A list is free of repetitions when each text is new to those before it.
pub fresh-cons :
    (t : Text) (seen ts : List Text)
    → All (λ s. any (◌==◌ s) (t ∷ seen) ≡ false) ts
    → All (λ s. any (◌==◌ s) seen ≡ false) ts × All (λ s. t ≢ s) ts
fresh-cons t seen ts h = (
  All-mono ts (λ s a. ground arith) h,
  All-mono ts (λ s a e. let r = ==_refl s in ground arith) h,
)

pub cons-fresh :
    (t : Text) (seen ts : List Text)
    → All (λ s. any (◌==◌ s) seen ≡ false) ts
    → All (λ s. t ≢ s) ts
    → All (λ s. any (◌==◌ s) (t ∷ seen) ≡ false) ts
cons-fresh t seen [] h k = tt
cons-fresh t seen (s ∷ ts) h k =
    let new = h.0 in
    let other = k.0 in
    let differs : s == t ≡ false = elim (Bool-cases (s == t)) [
      | inl e ↦ absurd (other (sym ((==_iff s t).0 e)))
      | inr f ↦ f
    ] in
    (ground arith, cons-fresh t seen ts h.1 k.1)
