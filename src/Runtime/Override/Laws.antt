-- ===== src/Runtime/Override/Laws.antt =====
-- What an applied override changes, and when.
use agent_experience_agentic.Runtime.Paths.{PathError}
use agent_experience_agentic.Common.{
  Text, ◌==◌, ==_iff, List, [], ◌∷◌, Bool, true, false, Option, none, some, Result, ok, err, ◌>>=◌,
  ◌≡◌, refl, ◌≢◌, arith, any, >>=-eq-ok, Memᴰ, All, Bool-cases, inl, inr, text_lt, trim, guard,
}
use agent_experience_agentic.Runtime.Matcher.{CanonicalSignature}
use agent_experience_agentic.Runtime.Gate.{InputForm, GateDecision, runtime_input_binding}
use agent_experience_agentic.Runtime.Override.{
  as_override_error, OverrideScope, rule_scope, action_scope, task_session_scope, RuntimeOverride,
  checked_identifier, hash_signature, assert_timestamp, assert_non_empty, assert_bounded,
  assert_durable_text_safe, max_text_length,
}
use agent_experience_agentic.Runtime.Override.Grant.{
  parse_runtime_override, parse_scope, check_expiry,
}
use agent_experience_agentic.Runtime.Override.Apply.{
  OverrideApplication, ApplyRuntimeOverrideInput, apply_runtime_override, settle, scope_matches,
  enforcing_rule_ids, ScopeMatch, overridden_decision, has_expired, is_session,
}

All-of_mem {ℓ κ} :
    {A : Type ℓ} (P : A → Type κ) (xs : List A) → ((x : A) → Memᴰ x xs → P x) → All P xs
All-of_mem P [] h = tt
All-of_mem P (x ∷ xs) h = (h x (Memᴰ.head refl), All-of_mem P xs (λ y m. h y (Memᴰ.tail m)))

any-mem : (x : Text) (xs : List Text) → Memᴰ x xs → any (◌==◌ x) xs ≡ true
any-mem x [] m = elim m [ ]
any-mem x (y ∷ ys) (Memᴰ.head e) = let same = ==_iff x y in ground arith
any-mem x (y ∷ ys) (Memᴰ.tail m) = let later = any-mem x ys m in ground arith

as_override_error-ok {ℓ} :
    {A : Type ℓ} (x : Result PathError A) {a : A} → as_override_error x ≡ ok a → x ≡ ok a
as_override_error-ok (err e) h = cc
as_override_error-ok (ok b) h = ground arith

module _ (is_iso safe : Text → Bool) where
  pub checked_identifier-eq :
      (v : Text) {id : Text} → checked_identifier is_iso safe v ≡ ok id → id ≡ v
  unfolding checked_identifier
  checked_identifier-eq v h = ground arith

  pub parse_scope-eq :
      (v : OverrideScope) {s : OverrideScope} → parse_scope is_iso safe v ≡ ok s → s ≡ v
  unfolding parse_scope
  parse_scope-eq (rule_scope v) h =
      let (id, checked, done) = >>=-eq-ok (checked_identifier is_iso safe v) _ h in
      let same = checked_identifier-eq v checked in cc
  parse_scope-eq (action_scope v) h = ground arith
  parse_scope-eq (task_session_scope v) h =
      let (id, checked, done) = >>=-eq-ok (checked_identifier is_iso safe v) _ h in
      let same = checked_identifier-eq v checked in cc

  -- A parsed override is the override.
  pub parse_runtime_override-eq :
      (v : RuntimeOverride) {o : RuntimeOverride}
      → parse_runtime_override is_iso safe v ≡ ok o
      → o ≡ v
  unfolding parse_runtime_override
  parse_runtime_override-eq v h =
      let (id, checked, h1) = >>=-eq-ok (checked_identifier is_iso safe v.id) _ h in
      let same_id = checked_identifier-eq v.id checked in
      let (_, canonical, h2) = >>=-eq-ok (guard (trim v.reason == v.reason) _) _ h1 in
      let (_, _, h3) = >>=-eq-ok (assert_non_empty (trim v.reason)) _ h2 in
      let (_, _, h4) = >>=-eq-ok (assert_bounded (trim v.reason) max_text_length) _ h3 in
      let (_, _, h5) = >>=-eq-ok (assert_durable_text_safe is_iso safe (trim v.reason)) _ h4 in
      let (_, _, h6) = >>=-eq-ok (assert_timestamp is_iso safe v.created_at) _ h5 in
      let (_, _, h7) = >>=-eq-ok (check_expiry is_iso safe v.created_at v.expires_at) _ h6 in
      let (s, parsed, done) = >>=-eq-ok (parse_scope is_iso safe v.scope) _ h7 in
      let same_scope = parse_scope-eq v.scope parsed in
      let same_reason : trim v.reason ≡ v.reason =
        ground (arith, ==_iff (trim v.reason) v.reason) in
      ground arith

module _ (lower : Text → Text) (sign : CanonicalSignature → Text) (digest : InputForm → Text)
    (is_iso safe : Text → Bool) where
  -- A refused override leaves the decision as it is.
  pub apply_runtime_override-rejected :
      (i : ApplyRuntimeOverrideInput) {r : OverrideApplication}
      → apply_runtime_override lower sign digest is_iso safe i ≡ ok r
      → r.accepted ≡ false
      → r.decision ≡ i.decision
  unfolding apply_runtime_override settle
  apply_runtime_override-rejected i h k = ground arith

  -- What an override covers: a referenced rule, the same action or the current session.
  abbrev pub Covers : OverrideScope → ApplyRuntimeOverrideInput → Type 0
  Covers (rule_scope id) i = any (λ r. r.rule_id == id) i.decision.references ≡ true
  Covers (action_scope hash) i = hash_signature lower sign i.input.signature ≡ ok hash
  Covers (task_session_scope id) i = i.task_session_id ≡ some id

  -- An override of a rule overrides that rule alone.
  abbrev pub OnlyOwn : OverrideScope → List Text → Type 0
  OnlyOwn (rule_scope id) ids = All (λ x. x ≡ id) ids
  OnlyOwn (action_scope _) ids = Unit
  OnlyOwn (task_session_scope _) ids = Unit

  -- The grounds on which an override is accepted.
  pub record IsGranted (i : ApplyRuntimeOverrideInput) (r : OverrideApplication) : Type 0 where
    pub same_input : runtime_input_binding lower digest i.input ≡ ok i.decision.input_binding
    pub started : text_lt i.now i.override.created_at ≡ false
    pub unexpired : has_expired i.now i.override.expires_at ≡ false
    pub covers : Covers i.override.scope i
    pub ids : List Text
    pub overrides : r.decision ≡ overridden_decision i.decision i.override ids
    pub enforcing :
        All (λ id. any (◌==◌ id) (enforcing_rule_ids i.decision.explanations) ≡ true) ids
    pub some_rule : ids ≢ []
    pub own : OnlyOwn i.override.scope ids

  scope_matches_sound :
      (s : OverrideScope) (i : ApplyRuntimeOverrideInput) {f : ScopeMatch}
      → scope_matches lower sign s i ≡ ok f
      → f.matches ≡ true
      → Covers s i
        × All
            (λ id. any (◌==◌ id) (enforcing_rule_ids i.decision.explanations) ≡ true)
            f.overridden_rule_ids
        × OnlyOwn s f.overridden_rule_ids
  unfolding scope_matches
  scope_matches_sound (rule_scope id) i {f} h m = elim (Bool-cases (any (◌==◌ id) enforcing)) [
    | inl t ↦
        let covered : any (λ r. r.rule_id == id) i.decision.references ≡ true = ground arith in
        let listed : f.overridden_rule_ids ≡ id ∷ [] = ground arith in
        (covered, rw listed (t, tt), rw listed (refl, tt))
    | inr n ↦
        let covered : any (λ r. r.rule_id == id) i.decision.references ≡ true = ground arith in
        let listed : f.overridden_rule_ids ≡ [] = ground arith in
        (covered, rw listed tt, rw listed tt)
  ]
    where
      enforcing : List Text
      enforcing = enforcing_rule_ids i.decision.explanations
  scope_matches_sound (task_session_scope id) i {f} h m =
      let listed : f.overridden_rule_ids ≡ enforcing_rule_ids i.decision.explanations =
        ground arith in
      (
        session_eq i.task_session_id (ground arith),
        rw listed (All-of_mem _ (enforcing_rule_ids i.decision.explanations) (λ x. any-mem x _)),
        tt,
      )
    where
      session_eq : (o : Option Text) → is_session id o ≡ true → o ≡ some id
      session_eq none e = cc
      session_eq (some t) e = let same = ==_iff id t in ground arith
  scope_matches_sound (action_scope hash) i {f} h m =
      let (current, hashed, done) = >>=-eq-ok (hash_signature lower sign i.input.signature) _ h in
      let same = ==_iff hash current in
      let matches : hash == current ≡ true = ground arith in
      let listed : f.overridden_rule_ids ≡ enforcing_rule_ids i.decision.explanations =
        ground arith in
      (
        rw ((==_iff hash current).0 matches) hashed,
        rw listed (All-of_mem _ (enforcing_rule_ids i.decision.explanations) (λ x. any-mem x _)),
        tt,
      )

  settle-accepted :
      (d : GateDecision) (o : RuntimeOverride) (f : ScopeMatch)
      → (settle lower sign digest is_iso safe d o f).accepted ≡ true
      → (f.matches ≡ true)
        × (f.overridden_rule_ids ≢ [])
        × ((settle lower sign digest is_iso safe d o f).decision
            ≡ overridden_decision d o f.overridden_rule_ids)
  unfolding settle
  settle-accepted d o f h = (ground arith, ground arith, ground arith)

  -- An override that applyRuntimeOverride accepts was granted for the same input, has begun and not
  -- expired at the given time, and covers the decision; the decision becomes the overridden one
  -- over a non-empty list of rules, each enforcing, and for a rule scope that rule alone.
  pub apply_runtime_override-accepted :
      (i : ApplyRuntimeOverrideInput) {r : OverrideApplication}
      → apply_runtime_override lower sign digest is_iso safe i ≡ ok r
      → r.accepted ≡ true
      → IsGranted i r
  unfolding apply_runtime_override
  apply_runtime_override-accepted i {r} h k =
      let (_, _, h1) = >>=-eq-ok (assert_timestamp is_iso safe i.now) _ h in
      let (o, parsed, h2) = >>=-eq-ok (parse_runtime_override is_iso safe i.override) _ h1 in
      let same : o ≡ i.override = parse_runtime_override-eq is_iso safe i.override parsed in
      let (b, bound, h3) =
        >>=-eq-ok (as_override_error (runtime_input_binding lower digest i.input)) _
          (rw same at h2) in
      let settled = settle lower sign digest is_iso safe i.decision i.override in
      let last : (scope_matches lower sign i.override.scope i >>= (λ found. ok (settled found)))
          ≡ ok r =
        ground arith in
      let (f, found, e) = >>=-eq-ok (scope_matches lower sign i.override.scope i) _ last in
      let r_eq : settle lower sign digest is_iso safe i.decision i.override f ≡ r = ground arith in
      let (m, some_rule, changed) = settle-accepted i.decision i.override f (rw r_eq k) in
      let (covers, enforcing, own) = scope_matches_sound i.override.scope i found m in
      record {
        same_input =
            as_override_error-ok (runtime_input_binding lower digest i.input)
              (rw ((==_iff b i.decision.input_binding).0 (ground arith)) at bound);
        started = ground arith;
        unexpired = ground arith;
        covers = covers;
        ids = f.overridden_rule_ids;
        overrides = rw r_eq at changed;
        enforcing = enforcing;
        some_rule = some_rule;
        own = own;
      }
