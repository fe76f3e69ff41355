-- ===== src/Learning/Typed/Support.antt =====
-- That what is derived from typed evidence is of that evidence.
use agent_experience_agentic.Common.{
  Text, List, [], ◌∷◌, Bool, true, false, ◌&&◌, if◌then◌else◌, Option, none, some, is_some, filter,
  find, All, All-append, All-of_filter, All-sort,
}
use agent_experience_agentic.Learning.Episodes.{EpisodeEvidence}
use agent_experience_agentic.Learning.Typed.{
  DetectorInput, Derived, episode, finding, cites, is_result, is_decision, is_transition, is_closed,
  get_all, first_of, compatible_scope_evidence, insufficient_finding, related_to, reasons_of,
  outcomes_of, lacks_scope, corrected, correct, correct_all, unlinked, corrections_of, is_original,
}
use agent_experience_agentic.Learning.Typed.Lookup.{
  OptionAll, Has, get_all-Has, first_of-Has, find-Has, listed-All,
}
use agent_experience_agentic.Learning.Typed.Gaps.{
  is_implementation, find_execution, find_result, find_criterion, gap_evidence, gaps_of,
  is_acceptance, acceptance_of, repeats_of, acceptances_of, each, derive_all,
}

-- The evidence that a derived item names.
abbrev pub event_ids_of : Derived → List Text
event_ids_of (episode e) = e.base.evidence_event_ids
event_ids_of (finding f) = f.evidence_event_ids

module _ {κ} (P : Text → Type κ) where
  abbrev pub AllNamed : List Derived → Type κ
  AllNamed ds = All (λ d. All P (event_ids_of d)) ds

  either-named :
      (b : Bool) (x y : Derived)
      → All P (event_ids_of x)
      → All P (event_ids_of y)
      → All P (event_ids_of (if b then x else y))
  either-named true x y h k = h
  either-named false x y h k = k

  either-AllNamed :
      (b : Bool) (xs ys : List Derived)
      → AllNamed xs
      → AllNamed ys
      → AllNamed (if b then xs else ys)
  either-AllNamed true xs ys h k = h
  either-AllNamed false xs ys h k = k

  module _ (id_lt : Text → Text → Bool) (stable_id : List Text → Text) (input : DetectorInput)
      (evidence : List EpisodeEvidence) (all : All (Has P) evidence) where
    correct-named :
        (changed original : EpisodeEvidence)
        → Has P changed
        → Has P original
        → All P (event_ids_of (correct id_lt stable_id input evidence changed original))
    unfolding correct
    correct-named changed original c o =
        let both : All P (original.id ∷ changed.id ∷ []) = (o, (c, tt)) in
        let of_related = All-of_filter (Has P) (λ item. cites item changed.id) evidence all in
        let reasons = first_of-Has P (reasons_of id_lt stable_id evidence changed) (
          All-of_filter (Has P) (λ item. is_some item.reason_class)
            (related_to id_lt stable_id evidence changed) of_related) in
        let outcomes = first_of-Has P (outcomes_of id_lt stable_id evidence changed) (
          All-of_filter (Has P) (λ item. is_result item.kind)
            (related_to id_lt stable_id evidence changed) of_related) in
        let more =
          All-append P _ _
            (listed-All P (first_of (reasons_of id_lt stable_id evidence changed)) reasons)
            (listed-All P (first_of (outcomes_of id_lt stable_id evidence changed)) outcomes) in
        either-named (lacks_scope id_lt stable_id evidence changed original)
          (insufficient_finding id_lt stable_id input (original.id ∷ changed.id ∷ [])
            compatible_scope_evidence)
          (corrected id_lt stable_id input evidence changed original) both (o, (c, more))

    correct_all-AllNamed :
        (changed : EpisodeEvidence) (originals : List EpisodeEvidence)
        → Has P changed
        → All (Has P) originals
        → AllNamed (correct_all id_lt stable_id input evidence changed originals)
    unfolding correct_all
    correct_all-AllNamed changed [] c os = tt
    correct_all-AllNamed changed (o ∷ originals) c os =
        (correct-named changed o c os.0, correct_all-AllNamed changed originals c os.1)

    corrections_of-AllNamed :
        (decisions : List EpisodeEvidence) (changed : EpisodeEvidence)
        → Has P changed
        → AllNamed (corrections_of id_lt stable_id input evidence decisions changed)
    unfolding corrections_of
    corrections_of-AllNamed decisions changed c =
        by_originals
          (filter (is_original id_lt stable_id changed) (get_all evidence changed.evidence_ids))
          (All-of_filter (Has P) (is_original id_lt stable_id changed)
            (get_all evidence changed.evidence_ids)
            (get_all-Has P evidence changed.evidence_ids all))
      where
        by_originals :
            (originals : List EpisodeEvidence)
            → All (Has P) originals
            → AllNamed (elim originals [
              | [] ↦ unlinked id_lt stable_id input decisions changed
              | original ∷ rest ↦
                  correct_all id_lt stable_id input evidence changed (original ∷ rest)
            ])
        by_originals [] os =
            let one : All P (changed.id ∷ []) = (c, tt) in
            either-AllNamed _ (_ ∷ []) [] (one, tt) tt
        by_originals (original ∷ rest) os = correct_all-AllNamed changed (original ∷ rest) c os

    gap_evidence-Has :
        (closure : EpisodeEvidence)
        → OptionAll (Has P) (gap_evidence id_lt stable_id evidence closure).implementation
          × OptionAll (Has P) (gap_evidence id_lt stable_id evidence closure).check_execution
          × OptionAll (Has P) (gap_evidence id_lt stable_id evidence closure).check_result
          × OptionAll (Has P) (gap_evidence id_lt stable_id evidence closure).criterion
    unfolding gap_evidence
    gap_evidence-Has closure =
        let linked = get_all evidence closure.evidence_ids in
        let implementation = find (is_implementation closure) linked in
        let execution = find_execution evidence closure implementation in
        let result = find_result evidence closure implementation execution in
        (
          find-Has P (is_implementation closure) linked
              (get_all-Has P evidence closure.evidence_ids all),
          by_implementation implementation,
          by_execution implementation execution,
          by_result result,
        )
      where
        by_implementation :
            (o : Option EpisodeEvidence) → OptionAll (Has P) (find_execution evidence closure o)
        by_implementation none = tt
        by_implementation (some e) = find-Has P _ evidence all

        by_execution :
            (i o : Option EpisodeEvidence) → OptionAll (Has P) (find_result evidence closure i o)
        by_execution i none = tt
        by_execution i (some e) = find-Has P _ evidence all

        by_result :
            (o : Option EpisodeEvidence)
            → OptionAll (Has P) (find_criterion id_lt stable_id evidence closure o)
        by_result none = tt
        by_result (some e) =
            first_of-Has P _ (All-sort _ (Has P) _ (All-of_filter (Has P) _ evidence all))

    gaps_of-AllNamed :
        (closure : EpisodeEvidence)
        → Has P closure
        → AllNamed (gaps_of id_lt stable_id input evidence closure)
    unfolding gaps_of
    gaps_of-AllNamed closure c =
        let (i, e, r, t) = gap_evidence-Has closure in
        let found = gap_evidence id_lt stable_id evidence closure in
        let named = All-append P _ _ (listed-All P found.implementation i) (
          All-append P _ _ (listed-All P found.check_execution e) (
            All-append P _ _ (listed-All P found.check_result r)
              (listed-All P found.criterion t))) in
        either-AllNamed _ [] (_ ∷ []) tt ((c, named), tt)

    repeats_of-AllNamed :
        (first : EpisodeEvidence) (rest : List EpisodeEvidence)
        → Has P first
        → All (Has P) rest
        → AllNamed (repeats_of id_lt stable_id input first rest)
    unfolding repeats_of
    repeats_of-AllNamed first [] f r = tt
    repeats_of-AllNamed first (repeated ∷ rest) f r =
        let later = repeats_of-AllNamed first rest f r.1 in
        let both : All P (event_ids_of (acceptance_of id_lt stable_id input first repeated)) =
          (f, (r.0, tt)) in
        either-AllNamed _ (acceptance_of id_lt stable_id input first repeated ∷ _) _ (both, later)
          later

    acceptances_of-AllNamed :
        (items : List EpisodeEvidence)
        → All (Has P) items
        → AllNamed (acceptances_of id_lt stable_id input items)
    unfolding acceptances_of
    acceptances_of-AllNamed [] h = tt
    acceptances_of-AllNamed (first ∷ rest) h =
        All-append _ _ _ (repeats_of-AllNamed first rest h.0 h.1) (acceptances_of-AllNamed rest h.1)

    each-AllNamed :
        (derive : EpisodeEvidence → List Derived) (items : List EpisodeEvidence)
        → ((e : EpisodeEvidence) → Has P e → AllNamed (derive e))
        → All (Has P) items
        → AllNamed (each id_lt stable_id derive items)
    each-AllNamed derive [] f h = tt
    each-AllNamed derive (e ∷ items) f h =
        All-append _ _ _ (f e h.0) (each-AllNamed derive items f h.1)

    pub derive_all-AllNamed : AllNamed (derive_all id_lt stable_id input evidence)
    unfolding derive_all
    derive_all-AllNamed =
        let decisions = filter (λ item. is_decision item.kind) evidence in
        let closures = filter (λ item. is_transition item.kind && is_closed item.state) evidence in
        All-append _ _ _
          (each-AllNamed _ decisions (corrections_of-AllNamed decisions)
            (All-of_filter (Has P) (λ item. is_decision item.kind) evidence all))
          (All-append _ _ _
            (each-AllNamed _ closures gaps_of-AllNamed (
              All-of_filter (Has P) (λ item. is_transition item.kind && is_closed item.state)
                evidence all))
            (acceptances_of-AllNamed (filter (is_acceptance id_lt stable_id) evidence)
              (All-of_filter (Has P) (is_acceptance id_lt stable_id) evidence all)))
