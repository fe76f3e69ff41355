-- ===== src/Runtime/Override/RoundTrip.antt =====
-- What `createRuntimeOverride` returns is what `parseRuntimeOverride` accepts and returns.
use agent_experience_agentic.Common.{
  Text, ==_refl, [], ◌∷◌, ◌++◌, Bool, true, false, ok, ◌≡◌, refl, sym, ap, ◌∙◌, arith, >>=-eq-ok,
  trim, trim_start, is_space, Bool-cases, inl, inr,
}
use mathlib.Core.Path.{subst}
use mathlib.Core.List.{reverse, reverse-append, reverse-reverse}
use agent_experience_agentic.Runtime.Contracts.{RuntimeSignature}
use agent_experience_agentic.Runtime.Matcher.{CanonicalSignature, canonical_signature}
use agent_experience_agentic.Runtime.Override.{
  RuntimeOverride, RuntimeOverrideInput, OverrideInputScope, rule_input, task_session_input,
  action_input, OverrideScope, rule_scope, action_scope, task_session_scope, checked_identifier,
  hash_signature, is_signature_hash, validate_action_signature_resources, as_override_error,
  assert_non_empty, assert_bounded, assert_durable_text_safe, assert_timestamp, max_text_length,
}
use agent_experience_agentic.Runtime.Override.Grant.{
  parse_runtime_override, create_runtime_override, parse_scope, create_scope, check_expiry,
}
use agent_experience_agentic.Runtime.Override.Laws.{checked_identifier-eq}

-- The text begins with no space.
abbrev StartsPlain : Text → Type 0
StartsPlain [] = Unit
StartsPlain (c ∷ s) = is_space c ≡ false

trim_start-StartsPlain : (s : Text) → StartsPlain (trim_start s)
unfolding trim_start
trim_start-StartsPlain [] = tt
trim_start-StartsPlain (c ∷ s) = elim (Bool-cases (is_space c)) [
  | inl t ↦ rw t (trim_start-StartsPlain s)
  | inr f ↦ rw f f
]

trim_start_plain : (s : Text) → StartsPlain s → trim_start s ≡ s
unfolding trim_start
trim_start_plain [] h = refl
trim_start_plain (c ∷ s) h = rw h refl

-- What `trim_start` takes off is a prefix.
trim_start-suffix : (s : Text) → (p : Text) × (s ≡ p ++ trim_start s)
unfolding trim_start
trim_start-suffix [] = ([], refl)
trim_start-suffix (c ∷ s) = elim (Bool-cases (is_space c)) [
  | inl t ↦ let (p, e) = trim_start-suffix s in (c ∷ p, rw t (ap (◌∷◌ c) e))
  | inr f ↦ ([], rw f refl)
]

prefix-StartsPlain : (p q : Text) → StartsPlain (p ++ q) → StartsPlain p
prefix-StartsPlain [] q h = tt
prefix-StartsPlain (c ∷ p) q h = h

trim-StartsPlain : (s : Text) → StartsPlain (trim s)
unfolding trim
trim-StartsPlain s =
    let front = trim_start s in
    let (p, e) = trim_start-suffix (reverse front) in
    let whole : front ≡ reverse (trim_start (reverse front)) ++ reverse p =
      sym (reverse-reverse front) ∙ ap reverse e ∙ reverse-append p (trim_start (reverse front)) in
    prefix-StartsPlain (reverse (trim_start (reverse front))) (reverse p)
      (rw whole at (trim_start-StartsPlain s))

trim_idempotent : (s : Text) → trim (trim s) ≡ trim s
unfolding trim
trim_idempotent s =
    let b = trim_start (reverse (trim_start s)) in
    ap (λ u. reverse (trim_start (reverse u))) (trim_start_plain (reverse b) (trim-StartsPlain s))
    ∙ ap (λ u. reverse (trim_start u)) (reverse-reverse b)
    ∙ ap reverse (trim_start_plain b (trim_start-StartsPlain (reverse (trim_start s))))

checked_identifier-again :
    (is_iso safe : Text → Bool) (v : Text) {id : Text}
    → checked_identifier is_iso safe v ≡ ok id
    → checked_identifier is_iso safe id ≡ ok id
checked_identifier-again is_iso safe v {id} h =
    subst (λ x. checked_identifier is_iso safe x ≡ ok id)
      (sym (checked_identifier-eq is_iso safe v h)) h

-- Checks that all pass make a parsed override.
parse_runtime_override_checked :
    (is_iso safe : Text → Bool) (o : RuntimeOverride)
    → checked_identifier is_iso safe o.id ≡ ok o.id
    → trim o.reason ≡ o.reason
    → assert_non_empty o.reason ≡ ok tt
    → assert_bounded o.reason max_text_length ≡ ok tt
    → assert_durable_text_safe is_iso safe o.reason ≡ ok tt
    → assert_timestamp is_iso safe o.created_at ≡ ok tt
    → check_expiry is_iso safe o.created_at o.expires_at ≡ ok tt
    → parse_scope is_iso safe o.scope ≡ ok o.scope
    → parse_runtime_override is_iso safe o ≡ ok o
unfolding parse_runtime_override
parse_runtime_override_checked is_iso safe o id trimmed filled bounded screened dated ends scope =
    rw (id, trimmed, ==_refl o.reason, filled, bounded, screened, dated, ends, scope) refl

module _ (lower : Text → Text) (sign : CanonicalSignature → Text) (is_iso safe : Text → Bool)
    (hex : (c : CanonicalSignature) → is_signature_hash (sign c) ≡ true) where
  hash_signature-is_signature_hash :
      (signature : RuntimeSignature) {hash : Text}
      → hash_signature lower sign signature ≡ ok hash
      → is_signature_hash hash ≡ true
  unfolding hash_signature
  hash_signature-is_signature_hash signature {hash} h =
      let (_, _, h1) = >>=-eq-ok (validate_action_signature_resources signature) _ h in
      let (c, _, done) = >>=-eq-ok (as_override_error (canonical_signature lower signature)) _ h1 in
      let e : sign c ≡ hash = ground arith in subst (λ x. is_signature_hash x ≡ true) e (hex c)

  parse_scope-create_scope :
      (s : OverrideInputScope) {o : OverrideScope}
      → create_scope is_iso safe lower sign s ≡ ok o
      → parse_scope is_iso safe o ≡ ok o
  unfolding parse_scope create_scope
  parse_scope-create_scope (rule_input v) {o} h =
      let (id, checked, done) = >>=-eq-ok (checked_identifier is_iso safe v) _ h in
      let e : rule_scope id ≡ o = ground arith in
      subst (λ x. parse_scope is_iso safe x ≡ ok x) e
        (rw (checked_identifier-again is_iso safe v checked) refl)
  parse_scope-create_scope (task_session_input v) {o} h =
      let (id, checked, done) = >>=-eq-ok (checked_identifier is_iso safe v) _ h in
      let e : task_session_scope id ≡ o = ground arith in
      subst (λ x. parse_scope is_iso safe x ≡ ok x) e
        (rw (checked_identifier-again is_iso safe v checked) refl)
  parse_scope-create_scope (action_input v) {o} h =
      let (hash, hashed, done) = >>=-eq-ok (hash_signature lower sign v) _ h in
      let good = hash_signature-is_signature_hash v hashed in
      let e : action_scope hash ≡ o = ground arith in
      subst (λ x. parse_scope is_iso safe x ≡ ok x) e (rw good refl)

  -- Where the digest writes 64 hexadecimal digits, parseRuntimeOverride returns every override that
  -- createRuntimeOverride made, unchanged.
  pub parse_runtime_override-create_runtime_override :
      (i : RuntimeOverrideInput) {o : RuntimeOverride}
      → create_runtime_override is_iso safe lower sign i ≡ ok o
      → parse_runtime_override is_iso safe o ≡ ok o
  unfolding parse_runtime_override create_runtime_override
  parse_runtime_override-create_runtime_override i {o} h =
      let (id, checked, h1) = >>=-eq-ok (checked_identifier is_iso safe i.id) _ h in
      let reason = trim i.reason in
      let (_, filled, h2) = >>=-eq-ok (assert_non_empty reason) _ h1 in
      let (_, bounded, h3) = >>=-eq-ok (assert_bounded reason max_text_length) _ h2 in
      let (_, screened, h4) = >>=-eq-ok (assert_durable_text_safe is_iso safe reason) _ h3 in
      let (_, dated, h5) = >>=-eq-ok (assert_timestamp is_iso safe i.created_at) _ h4 in
      let (_, ends, h6) = >>=-eq-ok (check_expiry is_iso safe i.created_at i.expires_at) _ h5 in
      let (scope, made, done) = >>=-eq-ok (create_scope is_iso safe lower sign i.scope) _ h6 in
      let parsed = parse_scope-create_scope i.scope made in
      let created : RuntimeOverride = record {
        id = id;
        scope = scope;
        reason = reason;
        created_at = i.created_at;
        expires_at = i.expires_at;
      } in
      let e : created ≡ o = ground arith in
      subst (λ x. parse_runtime_override is_iso safe x ≡ ok x) e
        (parse_runtime_override_checked is_iso safe created
          (checked_identifier-again is_iso safe i.id checked) (trim_idempotent i.reason) filled
          bounded screened dated ends parsed)
