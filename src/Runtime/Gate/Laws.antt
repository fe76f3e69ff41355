-- ===== src/Runtime/Gate/Laws.antt =====
-- What a decision of the gate says of the rules: when it blocks, and what a degraded gate decides.
use agent_experience_agentic.Common.{
  Text, List, [], ◌∷◌, ◌≡◌, refl, sym, ap, ◌∙◌, true, ok, arith, >>=-eq-ok, Memᴰ, All-mem, map,
}
use mathlib.Core.Path.{subst}
use mathlib.Core.Logic.{∥∥₁_elim}
use agent_experience_agentic.Domain.Types.{verified}
use agent_experience_agentic.Runtime.Contracts.{
  DecisionOutcome, block, exact, RuntimeInput, RuleMatch, RuntimeProfile,
}
use agent_experience_agentic.Runtime.Matcher.{match_rules}
use agent_experience_agentic.Runtime.Matcher.Laws.{Applies, match_rules_sound, match_rules_complete}
use agent_experience_agentic.Runtime.Policy.{evaluate_rule}
use agent_experience_agentic.Runtime.Policy.Laws.{Opposes, evaluate_rule-block_iff}
use agent_experience_agentic.Runtime.Resilience.{deterministic, RuntimeStatus}
use agent_experience_agentic.Runtime.Gate.{
  InputForm, RuntimeGateOptions, GateDecision, strongest, explain, explanation_outcomes, decide,
  evaluate, runtime_input_binding, index_rules,
}
use agent_experience_agentic.Runtime.Gate.Strongest.{strongest-block}

-- The outcomes of the matches of an index, one for each.
abbrev decided_outcomes : RuntimeProfile → List RuleMatch → List DecisionOutcome
decided_outcomes profile ms =
    explanation_outcomes (map explain (map (λ m. evaluate_rule m profile) ms))

decide-outcome :
    (input : RuntimeInput) (profile : RuntimeProfile) (status : RuntimeStatus) (ms : List RuleMatch)
    (b : Text)
    → (decide input profile status ms b).outcome ≡ strongest (decided_outcomes profile ms)
unfolding decide
decide-outcome input profile status ms b = refl

outcomes-mem :
    (profile : RuntimeProfile) (o : DecisionOutcome) (ms : List RuleMatch)
    → Memᴰ o (decided_outcomes profile ms)
    → (m : RuleMatch) × Memᴰ m ms × ((evaluate_rule m profile).outcome ≡ o)
outcomes-mem profile o [] i = elim i [ ]
outcomes-mem profile o (m ∷ ms) (Memᴰ.head e) = (m, Memᴰ.head refl, sym e)
outcomes-mem profile o (m ∷ ms) (Memᴰ.tail i) =
    let (m', j, e) = outcomes-mem profile o ms i in (m', Memᴰ.tail j, e)

mem-outcomes :
    (profile : RuntimeProfile) (m : RuleMatch) (ms : List RuleMatch)
    → Memᴰ m ms
    → Memᴰ (evaluate_rule m profile).outcome (decided_outcomes profile ms)
mem-outcomes profile m [] i = elim i [ ]
mem-outcomes profile m (m' ∷ ms) (Memᴰ.head e) =
    Memᴰ.head (ap (λ m. (evaluate_rule m profile).outcome) e)
mem-outcomes profile m (m' ∷ ms) (Memᴰ.tail i) = Memᴰ.tail (mem-outcomes profile m ms i)

DecisionOutcome-set : IsSet DecisionOutcome
DecisionOutcome-set = hlevel

module _ (lower : Text → Text) (digest : InputForm → Text) (gate : RuntimeGateOptions)
    (input : RuntimeInput) where
  evaluate_matches :
      {d : GateDecision}
      → gate.status.retrieval_mode ≡ deterministic
      → evaluate lower digest gate input ≡ ok d
      → (ms : List RuleMatch) × (match_rules lower input (index_rules gate.index) ≡ ok ms)
        × ((b : Text) × (d ≡ decide input gate.profile gate.status ms b))
  unfolding evaluate
  evaluate_matches {d} mode h =
      let (ms, found, h') =
        >>=-eq-ok (match_rules lower input (index_rules gate.index)) _ (rw mode at h) in
      let (b, bound, same) = >>=-eq-ok (runtime_input_binding lower digest input) _ h' in
      (ms, found, (b, ground arith))

  -- A rule that blocks the operation: one of the index that applies with an exact match, is
  -- verified and is an authoritative conflict.
  abbrev pub Blocks : RuleMatch → Type 0
  Blocks m =
      Memᴰ m.rule (index_rules gate.index)
      × Applies lower input m
      × Opposes m
      × (m.rule.state ≡ verified)
      × (m.strength ≡ exact)

  -- A deterministic gate whose evaluation succeeds with BLOCK has a profile with hard blocking, and
  -- one of its rules applies to the operation, is an authoritative conflict, is verified, and
  -- matches exactly.
  pub evaluate-block_sound :
      {d : GateDecision}
      → gate.status.retrieval_mode ≡ deterministic
      → evaluate lower digest gate input ≡ ok d
      → d.outcome ≡ block
      → (gate.profile.hard_blocking ≡ true) × ((m : RuleMatch) × Blocks m)
  evaluate-block_sound {d} mode h blocked =
      let (ms, found, (b, e)) = evaluate_matches mode h in
      let (m, i, decided) = outcomes-mem gate.profile block ms (
        (strongest-block (decided_outcomes gate.profile ms)).0 (
          sym (decide-outcome input gate.profile gate.status ms b)
          ∙ sym (ap (λ x. x.outcome) e)
          ∙ blocked)) in
      let (opposes, state, strength, hard) = (evaluate_rule-block_iff m gate.profile).0 decided in
      let (listed, applies) = All-mem _ ms i (match_rules_sound lower input _ found) in
      (hard, (m, (listed, applies, opposes, state, strength)))

  -- Where the evaluation of a deterministic gate with hard blocking succeeds, one listed rule that
  -- applies to the operation, is an authoritative conflict, is verified and matches exactly makes
  -- the outcome BLOCK.
  pub evaluate-block_complete :
      {d : GateDecision} (m : RuleMatch)
      → gate.status.retrieval_mode ≡ deterministic
      → evaluate lower digest gate input ≡ ok d
      → gate.profile.hard_blocking ≡ true
      → Blocks m
      → d.outcome ≡ block
  evaluate-block_complete {d} m mode h hard (listed, applies, opposes, state, strength) =
      let (ms, found, (b, e)) = evaluate_matches mode h in
      let decided = (evaluate_rule-block_iff m gate.profile).1 (opposes, state, strength, hard) in
      rw e (
        rw (decide-outcome input gate.profile gate.status ms b) (
          ∥∥₁_elim (match_rules_complete lower input _ m found listed applies)
            (DecisionOutcome-set _ _)
            λ i. (strongest-block (decided_outcomes gate.profile ms)).1 (
              subst (λ o. Memᴰ o (decided_outcomes gate.profile ms)) decided
                (mem-outcomes gate.profile m ms i))))
