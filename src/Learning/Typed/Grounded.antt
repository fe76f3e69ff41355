-- ===== src/Learning/Typed/Grounded.antt =====
-- That typedEpisodes gives checked episodes of the given evidence.
use mathlib.Core.Path.{subst}
use agent_experience_agentic.Common.{
  Text, List, [], ◌∷◌, Bool, Memᴰ, sort, ok, ◌≡◌, refl, ap, ◌∙◌, >>=-eq-ok, ok-injective, All,
  All-mono, All-sort, All-self,
}
use agent_experience_agentic.Learning.Episodes.{
  EpisodeEvidence, create_episode_evidence, create_typed_episode, freeze_identifiers,
  assert_identifier,
}
use agent_experience_agentic.Learning.Episodes.Laws.{
  IsTypedEpisode, create_typed_episode-IsTypedEpisode, create_episode_evidence-IsIdentityList,
}
use agent_experience_agentic.Learning.Typed.{DetectorInput, Derived, episode, finding}
use agent_experience_agentic.Learning.Typed.Gaps.{
  derive_all, create_all, check_derived, typed_episodes, evidence_before,
}
use agent_experience_agentic.Learning.Typed.Support.{event_ids_of, derive_all-AllNamed}

-- The id of a listed item of evidence.
abbrev pub IsIdOf : List EpisodeEvidence → Text → Type 0
IsIdOf evidence id = (e : EpisodeEvidence) × Memᴰ e evidence × (e.id ≡ id)

-- An episode may be stored, and a finding is no episode.
abbrev pub IsChecked : Derived → Type 0
IsChecked (episode e) = IsTypedEpisode e
IsChecked (finding _) = Unit {0}

module _ (id_lt : Text → Text → Bool) (stable_id : List Text → Text)
    (contains_credential : Text → Bool) where
  create_all-eq :
      (items : List EpisodeEvidence) {created : List EpisodeEvidence}
      → create_all id_lt stable_id contains_credential items ≡ ok created
      → items ≡ created
  unfolding create_all
  create_all-eq [] {created} h = ok-injective [] created h
  create_all-eq (item ∷ items) {created} h =
      let (first, one, h1) = >>=-eq-ok (create_episode_evidence contains_credential item) _ h in
      let (rest, more, done) =
        >>=-eq-ok (create_all id_lt stable_id contains_credential items) _ h1 in
      ap (λ x. x ∷ items) (create_episode_evidence-IsIdentityList contains_credential item one).0
      ∙ (ap (◌∷◌ first) (create_all-eq items more) ∙ ok-injective (first ∷ rest) created done)

  check_derived-All :
      (derived : List Derived)
      → check_derived id_lt stable_id contains_credential derived ≡ ok tt
      → All IsChecked derived
  unfolding check_derived
  check_derived-All [] h = tt
  check_derived-All (episode e ∷ rest) h =
      let (made, created, h1) = >>=-eq-ok (create_typed_episode e) _ h in
      ((create_typed_episode-IsTypedEpisode e created).1, check_derived-All rest h1)
  check_derived-All (finding f ∷ rest) h =
      let (_, _, h1) = >>=-eq-ok (assert_identifier f.id) _ h in
      let (_, _, h2) = >>=-eq-ok (freeze_identifiers f.evidence_event_ids) _ h1 in
      (tt, check_derived-All rest h2)

  -- Where typedEpisodes succeeds, every episode and finding that it derives names only ids of the
  -- evidence that it was given, and every derived episode is of the typed detector, with from one
  -- to 128 different evidence ids, and coherent references to these.
  pub typed_episodes-IsChecked :
      (input : DetectorInput) {derived : List Derived}
      → typed_episodes id_lt stable_id contains_credential input ≡ ok derived
      → All (λ d. All (IsIdOf input.episode_evidence) (event_ids_of d)) derived
        × All IsChecked derived
  unfolding typed_episodes
  typed_episodes-IsChecked input {derived} h =
      let (created, made, h1) =
        >>=-eq-ok (create_all id_lt stable_id contains_credential input.episode_evidence) _ h in
      let same = create_all-eq input.episode_evidence made in
      let sorted = sort (evidence_before id_lt stable_id) created in
      let items = derive_all id_lt stable_id input sorted in
      let (_, checked, done) =
        >>=-eq-ok (check_derived id_lt stable_id contains_credential items) _ h1 in
      let evidence = input.episode_evidence in
      let of_given : All (λ e. IsIdOf evidence e.id) created =
        subst (All (λ e. IsIdOf evidence e.id)) same
          (All-mono evidence (λ e m. (e, m, refl)) (All-self evidence)) in
      let of_sorted =
        All-sort (evidence_before id_lt stable_id) (λ e. IsIdOf evidence e.id) created of_given in
      let named = derive_all-AllNamed (IsIdOf evidence) id_lt stable_id input sorted of_sorted in
      subst (λ ds. All (λ d. All (IsIdOf evidence) (event_ids_of d)) ds × All IsChecked ds)
        (ok-injective items derived done) (named, check_derived-All items checked)
