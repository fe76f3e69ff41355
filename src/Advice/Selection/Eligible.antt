-- ===== src/Advice/Selection/Eligible.antt =====
-- What an eligible entry of advice is.
use agent_experience_agentic.Common.{
  ℕ, Text, Option, none, some, is_some, not, ◌||◌, ◌&&◌, all, ap, ==_sound, List, [], ◌∷◌, Bool,
  true, false, ◌≡◌, ◌≢◌, ◌⊎◌, inl, inr, refl, arith,
}
use agent_experience_agentic.Runtime.Matcher.{or_empty}
use agent_experience_agentic.Advice.Selection.{
  VerifiedAdviceEntry, AdviceContext, EntryState, verified, observed, ContradictionState, clear,
  in_dispute, is_verified, is_clear, is_text, is_general, is_nonempty, in_scope, holds_in,
  for_operation, is_eligible,
}

is_verified-eq : (s : EntryState) → is_verified s ≡ true → s ≡ verified
is_verified-eq verified h = refl
is_verified-eq observed h = absurd (ground (arith, h))

is_clear-eq : (s : ContradictionState) → is_clear s ≡ true → s ≡ clear
is_clear-eq clear h = refl
is_clear-eq in_dispute h = absurd (ground (arith, h))

is_text-eq : (o : Option Text) (t : Text) → is_text o t ≡ true → o ≡ some t
is_text-eq none t h = absurd (ground (arith, h))
is_text-eq (some own) t h = ap some (==_sound own t h)

is_nonempty-ne : (ts : List Text) → is_nonempty ts ≡ true → ts ≢ []
is_nonempty-ne [] h = absurd (ground (arith, h))
is_nonempty-ne (t ∷ ts) h = λ e. ground (arith, e)

for_operation-cases :
    (e : VerifiedAdviceEntry) (context : AdviceContext)
    → for_operation e context ≡ true
    → (e.operation_signature ≡ some context.operation_signature)
      ⊎ (e.operation_signature ≡ none) × (is_general e.kind ≡ true)
unfolding for_operation
for_operation-cases e context h = by_signature e.operation_signature h
  where
    by_signature :
        (o : Option Text)
        → (is_text o context.operation_signature || (not (is_some o) && is_general e.kind)) ≡ true
        → (o ≡ some context.operation_signature) ⊎ (o ≡ none) × (is_general e.kind ≡ true)
    by_signature none h = inr (refl, h)
    by_signature (some own) h =
        inl (ap some (==_sound own context.operation_signature (ground (arith, h))))

module _ (locale_lt : Text → Text → Bool) (contains_credential : Text → Bool)
    (byte_size : List VerifiedAdviceEntry → ℕ) (context : AdviceContext) where
  -- An entry for the place, the operation and the conditions of the context.
  pub record IsEligible (e : VerifiedAdviceEntry) : Type 0 where
    pub checked : e.state ≡ verified
    pub undisputed : e.contradiction_state ≡ clear
    pub own : e.repository_id ≡ context.repository_id
    pub current : e.context_revision ≡ some context.context_revision
    pub operation :
        (e.operation_signature ≡ some context.operation_signature)
        ⊎ (e.operation_signature ≡ none) × (is_general e.kind ≡ true)
    pub scope : in_scope e.scope context.subproject_path ≡ true
    pub conditions : all (holds_in context) (or_empty e.conditions) ≡ true
    pub evidence : e.evidence_refs ≢ []
    pub plain : contains_credential e.statement ≡ false

  pub is_eligible-IsEligible :
      (e : VerifiedAdviceEntry)
      → is_eligible locale_lt contains_credential byte_size context e ≡ true
      → IsEligible e
  unfolding is_eligible
  is_eligible-IsEligible e h = record {
    checked = is_verified-eq e.state (ground (arith, h));
    undisputed = is_clear-eq e.contradiction_state (ground (arith, h));
    own = ==_sound e.repository_id context.repository_id (ground (arith, h));
    current = is_text-eq e.context_revision context.context_revision (ground (arith, h));
    operation = for_operation-cases e context (ground (arith, h));
    scope = ground (arith, h);
    conditions = ground (arith, h);
    evidence = is_nonempty-ne e.evidence_refs (ground (arith, h));
    plain = ground (arith, h);
  }
