-- ===== src/Learning/Episodes/Laws.antt =====
-- What the episodes that are created guarantee.
use mathlib.Core.Path.{subst}
use agent_experience_agentic.Common.{
  Text, ◌==◌, ==_iff, List, [], ◌∷◌, Bool, true, false, not, ◌||◌, is_some, Result, ok, any, length,
  ◌≤◌, ◌≡◌, ◌≢◌, ◌⊎◌, inl, inr, refl, sym, ap, ◌∙◌, arith, >>=-eq-ok, guard-eq-ok, ok-injective,
  All, IsDistinct, fresh-cons,
}
use agent_experience_agentic.Learning.Episodes.{
  LearningError, OperationalEpisode, TypedEpisode, EpisodeDetail, Correction, correction,
  VerificationGap, verification_gap, RepeatedAcceptance, repeated_acceptance_of, CriterionState,
  unknown, met, unmet, EpisodeEvidence, assert_identifier, assert_text, optional, check_identities,
  freeze_identifiers, has_items, create_operational_episode, typed_detector_version,
  assert_references, references_of, is_unknown, check_detail, create_typed_episode,
  assert_evidence_identifier, freeze_evidence_identifiers, check_detector_version,
  create_episode_evidence,
}

check_identities-IsDistinct :
    (check : Text → Result LearningError (Unit {0})) (seen values : List Text)
    → check_identities check seen values ≡ ok tt
    → All (λ x. any (◌==◌ x) seen ≡ false) values × IsDistinct values
unfolding check_identities
check_identities-IsDistinct check seen [] h = (tt, tt)
check_identities-IsDistinct check seen (v ∷ vs) h =
    let (_, _, h1) = >>=-eq-ok (check v) _ h in
    let (new, h2) = guard-eq-ok (not (any (◌==◌ v) seen)) _ _ h1 in
    let (later, rest) = check_identities-IsDistinct check (v ∷ seen) vs h2 in
    let (fresh, apart) = fresh-cons v seen vs later in ((ground (arith, new), fresh), (apart, rest))

-- From one to 128 different identities.
pub record IsIdentityList (ids : List Text) : Type 0 where
  pub some_id : 1 ≤ length ids
  pub few : length ids ≤ 128
  pub distinct : IsDistinct ids

freeze_identifiers-IsIdentityList :
    (ids : List Text) → freeze_identifiers ids ≡ ok tt → IsIdentityList ids
unfolding freeze_identifiers
freeze_identifiers-IsIdentityList ids h =
    let (bounded, h1) = guard-eq-ok (has_items 128 ids) _ _ h in
    record {
      some_id = ground (arith, bounded);
      few = ground (arith, bounded);
      distinct = (check_identities-IsDistinct assert_identifier [] ids h1).1;
    }

create_operational_episode-ok :
    (v : OperationalEpisode) {r : OperationalEpisode}
    → create_operational_episode v ≡ ok r
    → (v ≡ r) × IsIdentityList v.evidence_event_ids
unfolding create_operational_episode
create_operational_episode-ok v {r} h =
    let (_, _, h1) = >>=-eq-ok (assert_identifier v.id) _ h in
    let (_, _, h2) = >>=-eq-ok (optional assert_identifier v.repository_id) _ h1 in
    let (_, _, h3) = >>=-eq-ok (assert_identifier v.session_id) _ h2 in
    let (_, _, h4) = >>=-eq-ok (assert_identifier v.detector) _ h3 in
    let (_, frozen, h5) = >>=-eq-ok (freeze_identifiers v.evidence_event_ids) _ h4 in
    let (_, _, h6) = >>=-eq-ok (optional assert_text v.attempted_operation) _ h5 in
    let (_, _, h7) = >>=-eq-ok (optional assert_text v.changed_operation) _ h6 in
    let (_, _, h8) = >>=-eq-ok (optional assert_identifier v.confirming_event_id) _ h7 in
    let (_, _, h9) = >>=-eq-ok (optional assert_text v.hypothesis) _ h8 in
    (ok-injective v r h9, freeze_identifiers-IsIdentityList v.evidence_event_ids frozen)

assert_references-All :
    (ids references : List Text)
    → assert_references ids references ≡ ok tt
    → All (λ r. any (◌==◌ r) ids ≡ true) references
unfolding assert_references
assert_references-All ids [] h = tt
assert_references-All ids (r ∷ rs) h =
    let (_, _, h1) = >>=-eq-ok (assert_identifier r) _ h in
    let (found, h2) = guard-eq-ok (any (◌==◌ r) ids) _ _ h1 in
    (found, assert_references-All ids rs h2)

-- What the kind of an episode asks of its fields.
pub data IsCoherent : EpisodeDetail → Type 0 where
  changed : (c : Correction) → c.original_decision ≢ c.changed_decision → IsCoherent (correction c)
  measured :
      (g : VerificationGap)
      → (g.criterion_state ≡ unknown) ⊎ (is_some g.criterion ≡ true)
      → IsCoherent (verification_gap g)
  repeated :
      (a : RepeatedAcceptance)
      → a.first_acceptance ≢ a.repeated_acceptance
      → IsCoherent (repeated_acceptance_of a)

different : (a b : Text) → not (a == b) ≡ true → a ≢ b
different a b h e = let k = (==_iff a b).1 e in absurd (ground (arith, h, k))

check_detail-IsCoherent :
    (ids : List Text) (d : EpisodeDetail)
    → check_detail ids d ≡ ok tt
    → IsCoherent d × All (λ r. any (◌==◌ r) ids ≡ true) (references_of d)
unfolding check_detail
check_detail-IsCoherent ids (correction c) h =
    let (_, found, h1) = >>=-eq-ok (assert_references ids (references_of (correction c))) _ h in
    let apart : not (c.original_decision == c.changed_decision) ≡ true = ground (arith, h1) in
    (
      changed c (different c.original_decision c.changed_decision apart),
      assert_references-All ids (references_of (correction c)) found,
    )
check_detail-IsCoherent ids (verification_gap g) h =
    let (known, h1) = guard-eq-ok (is_unknown g.criterion_state || is_some g.criterion) _ _ h in
    (
      measured g (by_state g.criterion_state known),
      assert_references-All ids (references_of (verification_gap g)) h1,
    )
  where
    by_state :
        (s : CriterionState)
        → is_unknown s || is_some g.criterion ≡ true
        → (s ≡ unknown) ⊎ (is_some g.criterion ≡ true)
    by_state unknown k = inl refl
    by_state met k = inr k
    by_state unmet k = inr k
check_detail-IsCoherent ids (repeated_acceptance_of a) h =
    let (_, _, h1) = >>=-eq-ok (assert_identifier a.scope_key) _ h in
    let (_, found, h2) =
      >>=-eq-ok (assert_references ids (references_of (repeated_acceptance_of a))) _ h1 in
    let apart : not (a.first_acceptance == a.repeated_acceptance) ≡ true = ground (arith, h2) in
    (
      repeated a (different a.first_acceptance a.repeated_acceptance apart),
      assert_references-All ids (references_of (repeated_acceptance_of a)) found,
    )

-- A typed episode that may be stored.
pub record IsTypedEpisode (e : TypedEpisode) : Type 0 where
  pub detector : e.base.detector ≡ typed_detector_version
  pub identities : IsIdentityList e.base.evidence_event_ids
  pub referenced : All (λ r. any (◌==◌ r) e.base.evidence_event_ids ≡ true) (references_of e.detail)
  pub coherent : IsCoherent e.detail

-- createTypedEpisode returns its argument, which is of the typed detector, has from one to 128
-- different evidence ids, refers only to these, and is coherent: a correction of a different
-- decision, a gap whose criterion is unknown or named, or the repetition of a different acceptance.
pub create_typed_episode-IsTypedEpisode :
    (v : TypedEpisode) {r : TypedEpisode}
    → create_typed_episode v ≡ ok r
    → (v ≡ r) × IsTypedEpisode v
unfolding create_typed_episode
create_typed_episode-IsTypedEpisode v {r} h =
    let (base, made, h1) = >>=-eq-ok (create_operational_episode v.base) _ h in
    let (same, identities) = create_operational_episode-ok v.base made in
    let (version, h2) = guard-eq-ok (base.detector == typed_detector_version) _ _ h1 in
    let (_, checked, h3) = >>=-eq-ok (check_detail base.evidence_event_ids v.detail) _ h2 in
    let (coherent, referenced) = check_detail-IsCoherent base.evidence_event_ids v.detail checked in
    let typed : TypedEpisode = record { base = base; detail = v.detail } in
    let whole : v ≡ typed = ap (λ b. record v { base = b }) same in
    (
      whole ∙ ok-injective typed r h3,
      record {
        detector =
            ap (λ b. b.detector) same ∙ (==_iff base.detector typed_detector_version).0 version;
        identities = identities;
        referenced =
            subst
              (λ b. All (λ x. any (◌==◌ x) b.evidence_event_ids ≡ true) (references_of v.detail))
              (sym same) referenced;
        coherent = coherent;
      },
    )

module _ (contains_credential : Text → Bool) where
  -- createEpisodeEvidence returns its argument, whose evidence is a list of identities.
  pub create_episode_evidence-IsIdentityList :
      (v : EpisodeEvidence) {r : EpisodeEvidence}
      → create_episode_evidence contains_credential v ≡ ok r
      → (v ≡ r) × IsIdentityList v.evidence_ids
  unfolding create_episode_evidence freeze_evidence_identifiers
  create_episode_evidence-IsIdentityList v {r} h =
      let check = assert_evidence_identifier contains_credential in
      let (_, _, h1) = >>=-eq-ok (check v.id) _ h in
      let (_, _, h2) = >>=-eq-ok (optional check v.decision_key) _ h1 in
      let (_, _, h3) = >>=-eq-ok (optional check v.scope_key) _ h2 in
      let (_, _, h4) =
        >>=-eq-ok (check_detector_version contains_credential v.kind v.detector_version) _ h3 in
      let (_, frozen, done) =
        >>=-eq-ok (freeze_evidence_identifiers contains_credential v.evidence_ids) _ h4 in
      let (bounded, each) = guard-eq-ok (has_items 128 v.evidence_ids) _ _ frozen in
      (
        ok-injective v r done,
        record {
          some_id = ground (arith, bounded);
          few = ground (arith, bounded);
          distinct = (check_identities-IsDistinct check [] v.evidence_ids each).1;
        },
      )
