-- ===== src/Config/Precedence.antt =====
-- The order of precedence of the candidates, and that a resolution has every field.
use mathlib.Core.Path.{subst}
use agent_experience_agentic.Common.{
  Text, List, [], ◌∷◌, ◌++◌, Bool, true, not, ◌&&◌, Option, none, some, ok, ◌≡◌, refl, arith,
  >>=-eq-ok, guard-eq-ok, ok-injective, All, Option-cases, inl, inr,
}
use agent_experience_agentic.Config.Settings.{PartialProfile, Candidate, Profiles}
use agent_experience_agentic.Config.Resolver.{
  ProfileResolutionInput, Traced, ResolvedProfileTarget, trace_entry, first_value, resolved_field,
  resolve_fields, collect_candidates, resolve_profile_target,
}
use agent_experience_agentic.Config.Candidates.{Winners, setting_at, AreCandidates}
use agent_experience_agentic.Config.Collected.{AreWinners, collect_candidates-AreCandidates}

-- The value is that of the first candidate that has the field, which the trace names.
pub record IsFirst {ℓ} {A : Type ℓ} (field : PartialProfile → Option A) (cs : List Candidate)
    (t : Traced A) : Type ℓ where
  pub before : List Candidate
  pub winner : Candidate
  pub after : List Candidate
  pub split : cs ≡ before ++ winner ∷ after
  pub passed : All (λ c. field c.values ≡ none) before
  pub value : field winner.values ≡ some t.value
  pub traced : t.entry ≡ trace_entry winner

some-injective {ℓ} : {A : Type ℓ} (a b : A) → ◌≡◌ {A = Option A} (some a) (some b) → a ≡ b
some-injective a b e = cc

first_value-IsFirst {ℓ} :
    {A : Type ℓ} (field : PartialProfile → Option A) (cs : List Candidate) {t : Traced A}
    → first_value field cs ≡ some t
    → IsFirst field cs t
unfolding first_value
first_value-IsFirst field [] h = cc
first_value-IsFirst field (c ∷ cs) {t} h = elim (Option-cases (field c.values)) [
  | inl missing ↦
      let later = first_value-IsFirst field cs (rw missing at h) in
      record {
        before = c ∷ later.before;
        winner = later.winner;
        after = later.after;
        split = rw later.split refl;
        passed = (missing, later.passed);
        value = later.value;
        traced = later.traced;
      }
  | inr (v, found) ↦
      let t' : Traced _ = record { value = v; entry = trace_entry c } in
      let same : t' ≡ t = some-injective t' t (rw found at h) in
      subst (IsFirst field (c ∷ cs)) same (record {
        before = [];
        winner = c;
        after = cs;
        split = refl;
        passed = tt;
        value = found;
        traced = refl;
      })
]

-- Every field of a resolution is that of the first candidate that has it.
pub record IsByPrecedence (cs : List Candidate) (r : ResolvedProfileTarget) : Type 0 where
  pub id : IsFirst (λ v. v.id) cs r.id
  pub hard_blocking : IsFirst (λ v. v.hard_blocking) cs r.hard_blocking
  pub warnings_enabled : IsFirst (λ v. v.warnings_enabled) cs r.warnings_enabled
  pub capture_enabled : IsFirst (λ v. v.capture_enabled) cs r.capture_enabled
  pub retrieval_enabled : IsFirst (λ v. v.retrieval_enabled) cs r.retrieval_enabled
  pub degraded_outcomes : IsFirst (λ v. v.degraded_outcomes) cs r.degraded_outcomes

resolved_field-some {ℓ} :
    {A : Type ℓ} (o : Option (Traced A)) {t : Traced A} → resolved_field o ≡ ok t → o ≡ some t
resolved_field-some none h = cc
resolved_field-some (some t) h = cc

resolve_fields-IsByPrecedence :
    (cs : List Candidate) {r : ResolvedProfileTarget}
    → resolve_fields cs ≡ ok r
    → IsByPrecedence cs r
unfolding resolve_fields
resolve_fields-IsByPrecedence cs {r} h =
    let (id, e1, h1) = >>=-eq-ok (resolved_field (first_value (λ v. v.id) cs)) _ h in
    let (hard, e2, h2) = >>=-eq-ok (resolved_field (first_value (λ v. v.hard_blocking) cs)) _ h1 in
    let (warn, e3, h3) =
      >>=-eq-ok (resolved_field (first_value (λ v. v.warnings_enabled) cs)) _ h2 in
    let (capture, e4, h4) =
      >>=-eq-ok (resolved_field (first_value (λ v. v.capture_enabled) cs)) _ h3 in
    let (get, e5, h5) =
      >>=-eq-ok (resolved_field (first_value (λ v. v.retrieval_enabled) cs)) _ h4 in
    let (outcomes, e6, done) =
      >>=-eq-ok (resolved_field (first_value (λ v. v.degraded_outcomes) cs)) _ h5 in
    subst (IsByPrecedence cs) (ok-injective _ r done) (record {
      id = first_value-IsFirst _ cs (resolved_field-some _ e1);
      hard_blocking = first_value-IsFirst _ cs (resolved_field-some _ e2);
      warnings_enabled = first_value-IsFirst _ cs (resolved_field-some _ e3);
      capture_enabled = first_value-IsFirst _ cs (resolved_field-some _ e4);
      retrieval_enabled = first_value-IsFirst _ cs (resolved_field-some _ e5);
      degraded_outcomes = first_value-IsFirst _ cs (resolved_field-some _ e6);
    })

module _ (lower : Text → Text) (normalize_remote : Text → Option Text) (built_in : List Text)
    (registry : Profiles) (lineage : Text → Bool) where
  -- What resolveProfileTarget returns has each field from the first of a list of candidates that
  -- has it, traced to that candidate. The list has one candidate for each source that has a
  -- setting, with the values of that setting, and the sources stand in the order: session override,
  -- local exact, local wildcard, repository shared, global exact, global wildcard, global default,
  -- built-in default; the settings of selectors are those of the exact or wildcard winners among
  -- the matches. A profile with a learning lineage keeps capture enabled.
  pub resolve_profile_target-IsByPrecedence :
      (i : ProfileResolutionInput) {r : ResolvedProfileTarget}
      → resolve_profile_target lower normalize_remote built_in registry lineage i ≡ ok r
      → (w : Winners) × (cs : List Candidate) × AreWinners lower normalize_remote built_in registry
          lineage i w
        × AreCandidates registry (setting_at i w) 0 cs
        × IsByPrecedence cs r
        × (lineage r.id.value ≡ true → r.capture_enabled.value ≡ true)
  unfolding resolve_profile_target
  resolve_profile_target-IsByPrecedence i {r} h =
      let (cs, collected, h1) =
        >>=-eq-ok (collect_candidates lower normalize_remote built_in registry lineage i) _ h in
      let (w, winners, candidates) =
        collect_candidates-AreCandidates lower normalize_remote built_in registry lineage i cs
          collected in
      let (t, resolved, h2) = >>=-eq-ok (resolve_fields cs) _ h1 in
      let (kept, done) =
        guard-eq-ok (not (lineage t.id.value && not t.capture_enabled.value)) _ _ h2 in
      let same : t ≡ r = ok-injective t r done in
      (
        w,
        cs,
        winners,
        candidates,
        subst (IsByPrecedence cs) same (resolve_fields-IsByPrecedence cs resolved),
        subst (λ x. lineage x.id.value ≡ true → x.capture_enabled.value ≡ true) same
            (learning (lineage t.id.value) t.capture_enabled.value kept),
      )
    where
      learning : (a b : Bool) → not (a && not b) ≡ true → a ≡ true → b ≡ true
      learning a b k p = ground arith
