-- ===== src/Runtime/Matcher/Equality.antt =====
-- The comparisons of the matcher decide equality.
use agent_experience_agentic.Common.{
  Text, ==_iff, ==_refl, List, [], ◌∷◌, true, ◌≡◌, refl, ◌↔◌, Option, none, some, arith,
}
use agent_experience_agentic.Runtime.Paths.{PathFlavor, CanonicalPath}
use agent_experience_agentic.Runtime.Matcher.{
  texts_eq, flavor_eq, path_eq, signature_eq, CanonicalSignature, action_form, intent_form,
}

texts_eq_sound : (ss ts : List Text) → texts_eq ss ts ≡ true → ss ≡ ts
unfolding texts_eq
texts_eq_sound [] [] h = refl
texts_eq_sound [] (_ ∷ _) h = cc
texts_eq_sound (_ ∷ _) [] h = cc
texts_eq_sound (s ∷ ss) (t ∷ ts) h = ground (arith, ==_iff s t, texts_eq_sound ss ts)

pub texts_eq_refl : (ss : List Text) → texts_eq ss ss ≡ true
unfolding texts_eq
texts_eq_refl [] = refl
texts_eq_refl (s ∷ ss) = rw (==_refl s) (texts_eq_refl ss)

flavor_eq_sound : (f g : PathFlavor) → flavor_eq f g ≡ true → f ≡ g
unfolding flavor_eq
flavor_eq_sound f g h = ground arith

flavor_eq_refl : (f : PathFlavor) → flavor_eq f f ≡ true
unfolding flavor_eq
flavor_eq_refl f = ground arith

path_eq_sound : (p q : Option CanonicalPath) → path_eq p q ≡ true → p ≡ q
unfolding path_eq
path_eq_sound none none h = refl
path_eq_sound none (some d) h = cc
path_eq_sound (some c) none h = cc
path_eq_sound (some c) (some d) h =
    ground (arith, flavor_eq_sound c.flavor d.flavor, ==_iff c.normalized d.normalized)

path_eq_refl : (p : Option CanonicalPath) → path_eq p p ≡ true
unfolding path_eq
path_eq_refl none = refl
path_eq_refl (some c) = ground (arith, flavor_eq_refl c.flavor, ==_refl c.normalized)

signature_eq_sound : (s t : CanonicalSignature) → signature_eq s t ≡ true → s ≡ t
unfolding signature_eq
signature_eq_sound (action_form t a args p) (action_form t' a' args' p') h =
    ground (arith, ==_iff t t', ==_iff a a', texts_eq_sound args args', path_eq_sound p p')
signature_eq_sound (action_form _ _ _ _) (intent_form _ _ _ _) h = cc
signature_eq_sound (intent_form _ _ _ _) (action_form _ _ _ _) h = cc
signature_eq_sound (intent_form v t o p) (intent_form v' t' o' p') h =
    ground (arith, ==_iff v v', ==_iff t t', ==_iff o o', path_eq_sound p p')

signature_eq_refl : (s : CanonicalSignature) → signature_eq s s ≡ true
unfolding signature_eq
signature_eq_refl (action_form t a args p) =
    ground (arith, ==_refl t, ==_refl a, texts_eq_refl args, path_eq_refl p)
signature_eq_refl (intent_form v t o p) =
    ground (arith, ==_refl v, ==_refl t, ==_refl o, path_eq_refl p)

pub signature_eq_iff : (s t : CanonicalSignature) → (signature_eq s t ≡ true) ↔ (s ≡ t)
signature_eq_iff s t = (signature_eq_sound s t, λ e. rw e (signature_eq_refl t))
