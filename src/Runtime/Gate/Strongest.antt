-- ===== src/Runtime/Gate/Strongest.antt =====
-- `strongest`: the greatest outcome of a list.
use agent_experience_agentic.Common.{
  ◌≤◌, ◌≡◌, refl, ◌↔◌, ◌⊎◌, inl, inr, List, [], ◌∷◌, arith, All, All-mem, Memᴰ, ◌∙◌, sym,
}
use mathlib.Core.Path.{subst}
use agent_experience_agentic.Runtime.Contracts.{DecisionOutcome, allow, warn, block}
use agent_experience_agentic.Runtime.Gate.{outcome_rank, stronger, strongest_from, strongest}

stronger_ge :
    (s o : DecisionOutcome)
    → (outcome_rank s ≤ outcome_rank (stronger s o))
      × (outcome_rank o ≤ outcome_rank (stronger s o))
unfolding stronger
stronger_ge s o = ground arith

stronger_cases : (s o : DecisionOutcome) → (stronger s o ≡ s) ⊎ (stronger s o ≡ o)
unfolding stronger
stronger_cases s o = ground arith

strongest_from_ge :
    (s : DecisionOutcome) (os : List DecisionOutcome)
    → (outcome_rank s ≤ outcome_rank (strongest_from s os))
      × All (λ o. outcome_rank o ≤ outcome_rank (strongest_from s os)) os
unfolding strongest_from
strongest_from_ge s [] = (omega arith, tt)
strongest_from_ge s (o ∷ os) =
    let (from, rest) = strongest_from_ge (stronger s o) os in
    let (a, b) = stronger_ge s o in (omega arith, (omega arith, rest))

strongest_from-mem :
    (s : DecisionOutcome) (os : List DecisionOutcome)
    → (strongest_from s os ≡ s) ⊎ Memᴰ (strongest_from s os) os
unfolding strongest_from
strongest_from-mem s [] = inl refl
strongest_from-mem s (o ∷ os) = elim (strongest_from-mem (stronger s o) os) [
  | inr m ↦ inr (Memᴰ.tail m)
  | inl e ↦ elim (stronger_cases s o) [
    | inl kept ↦ inl (e ∙ kept)
    | inr taken ↦ inr (Memᴰ.head (e ∙ taken))
  ]
]

-- No outcome of the list is stronger, and it is one of them, or ALLOW.
pub strongest_max :
    (os : List DecisionOutcome)
    → All (λ o. outcome_rank o ≤ outcome_rank (strongest os)) os
      × ((strongest os ≡ allow) ⊎ Memᴰ (strongest os) os)
unfolding strongest
strongest_max os = ((strongest_from_ge allow os).1, strongest_from-mem allow os)

block_of_rank : (o : DecisionOutcome) → 2 ≤ outcome_rank o → o ≡ block
unfolding outcome_rank
block_of_rank allow h = absurd (omega arith)
block_of_rank warn h = absurd (omega arith)
block_of_rank block h = refl

pub strongest-block : (os : List DecisionOutcome) → (strongest os ≡ block) ↔ Memᴰ block os
unfolding outcome_rank
strongest-block os = (there, back)
  where
    there : strongest os ≡ block → Memᴰ block os
    there e = elim (strongest_max os).1 [
      | inl none_stronger ↦ absurd (clash (sym none_stronger ∙ e))
      | inr m ↦ subst (λ o. Memᴰ o os) e m
    ]
      where
        clash : allow ≡ block → ⊥
        clash k = cc

    back : Memᴰ block os → strongest os ≡ block
    back m =
        block_of_rank (strongest os)
          (All-mem (λ o. outcome_rank o ≤ outcome_rank (strongest os)) os m (strongest_max os).0)
