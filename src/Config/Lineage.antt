-- ===== src/Config/Lineage.antt =====
-- Custom profiles: their resolution ends, and learning profiles capture.
use agent_experience_agentic.Common.{
  ℕ, zero, suc, ◌+◌, ◌≤◌, Text, ◌==◌, ==_iff, List, [], ◌∷◌, ◌++◌, Bool, true, false, not, ◌&&◌,
  ◌||◌, Option, none, some, Result, ok, err, ◌>>=◌, ◌≡◌, refl, sym, ap, ◌≢◌, arith, >>=-eq-ok,
  guard-eq-ok, ok-injective, length, any, All, All-append, Memᴰ, fresh-All, IsDistinct,
  length-IsDistinct-le, Bool-cases, inl, inr, guard,
}
use mathlib.Core.Path.{subst}
use agent_experience_agentic.Runtime.Contracts.{RuntimeProfile}
use agent_experience_agentic.Config.Inheritance.{
  CustomRuntimeProfileDefinition, RuntimeProfileRegistry, RuntimeProfileConfigurationError,
  out_of_fuel, circular_inheritance, learning, needed, known_or, definition_by_id, ResolvedEntry,
  Resolved, resolved_by_id, initially_resolved, add_child, resolve_profile, resolve_all,
  validate_definition, validate_definitions, check_ids, resolved_profiles, learning_ids,
  define_runtime_profiles, inherited_profile,
}

abbrev definition_ids : List CustomRuntimeProfileDefinition → List Text
definition_ids [] = []
definition_ids (d ∷ ds) = d.id ∷ definition_ids ds

length-definition_ids :
    (ds : List CustomRuntimeProfileDefinition) → length (definition_ids ds) ≡ length ds
length-definition_ids [] = refl
length-definition_ids (d ∷ ds) = ap suc (length-definition_ids ds)

definition_by_id-mem :
    (id : Text) (ds : List CustomRuntimeProfileDefinition) {d : CustomRuntimeProfileDefinition}
    → definition_by_id id ds ≡ some d
    → Memᴰ id (definition_ids ds)
unfolding definition_by_id
definition_by_id-mem id [] h = cc
definition_by_id-mem id (e ∷ ds) h = elim (Bool-cases (e.id == id)) [
  | inl t ↦ Memᴰ.head (sym ((==_iff e.id id).0 t))
  | inr f ↦ Memᴰ.tail (definition_by_id-mem id ds (rw f at h))
]

step-fuel {ℓ κ} :
    {A : Type ℓ} {B : Type κ} (step : Result RuntimeProfileConfigurationError A)
    (next : A → Result RuntimeProfileConfigurationError B)
    → step ≢ err out_of_fuel
    → ((a : A) → next a ≢ err out_of_fuel)
    → (step >>= next) ≢ err out_of_fuel
step-fuel (ok a) next f g h = g a h
step-fuel (err e) next f g h = f (cc)

guard-fuel {κ} :
    {B : Type κ} (test : Bool) (next : Unit {0} → Result RuntimeProfileConfigurationError B)
    → (guard (not test) circular_inheritance >>= next) ≡ err out_of_fuel
    → (test ≡ false) × (next tt ≡ err out_of_fuel)
guard-fuel false next h = (refl, h)
guard-fuel true next h = cc

-- A learning profile captures.
abbrev Safe : Resolved → Type 0
Safe = All (λ e. e.inherits_learning ≡ true → e.profile.capture_enabled ≡ true)

module _ (ds : List CustomRuntimeProfileDefinition) where
  add_child-Safe :
      (d : CustomRuntimeProfileDefinition) (parent : ResolvedEntry) (resolved : Resolved)
      {result : ResolvedEntry × Resolved}
      → Safe resolved
      → add_child ds d (parent, resolved) ≡ ok result
      → Safe result.1
  unfolding add_child
  add_child-Safe d parent resolved {result} safe h =
      let inherits = d.extends == learning || parent.inherits_learning in
      let profile = inherited_profile d parent.profile in
      let (kept, done) = guard-eq-ok (not (inherits && not profile.capture_enabled)) _ _ h in
      let e : ResolvedEntry = record { profile = profile; inherits_learning = inherits } in
      subst (λ r. Safe r.1) (ok-injective (e, resolved ++ e ∷ []) result done)
        (All-append _ resolved (e ∷ []) safe (captures inherits profile.capture_enabled kept, tt))
    where
      captures : (a b : Bool) → not (a && not b) ≡ true → a ≡ true → b ≡ true
      captures a b k p = ground arith

  known_or-Safe :
      (o : Option ResolvedEntry) (resolved : Resolved)
      (later : Result RuntimeProfileConfigurationError (ResolvedEntry × Resolved))
      {result : ResolvedEntry × Resolved}
      → Safe resolved
      → (later ≡ ok result → Safe result.1)
      → known_or ds o resolved later ≡ ok result
      → Safe result.1
  known_or-Safe none resolved later safe f h = f h
  known_or-Safe (some e) resolved later {result} safe f h =
      subst (λ r. Safe r.1) (ok-injective (e, resolved) result h) safe

  resolve_profile-Safe :
      (fuel : ℕ) (path : List Text) (id : Text) (resolved : Resolved)
      {result : ResolvedEntry × Resolved}
      → Safe resolved
      → resolve_profile ds fuel path id resolved ≡ ok result
      → Safe result.1
  unfolding resolve_profile
  resolve_profile-Safe zero path id resolved {result} safe =
      known_or-Safe (resolved_by_id id resolved) resolved _ safe λ h.
        let (_, h1) = guard-eq-ok (not (any (◌==◌ id) path)) _ _ h in
        let (d, _, h2) = >>=-eq-ok (needed ds (definition_by_id id ds)) _ h1 in
        absurd (no_ok result h2)
    where
      no_ok :
          (r : ResolvedEntry × Resolved)
          → ◌≡◌ {A = Result RuntimeProfileConfigurationError (ResolvedEntry × Resolved)}
              (err out_of_fuel)
              (ok r)
          → ⊥
      no_ok r e = cc
  resolve_profile-Safe (suc fuel) path id resolved {result} safe =
      known_or-Safe (resolved_by_id id resolved) resolved _ safe λ h.
        let (_, h1) = guard-eq-ok (not (any (◌==◌ id) path)) _ _ h in
        let (d, _, h2) = >>=-eq-ok (needed ds (definition_by_id id ds)) _ h1 in
        let (parent, found, done) =
          >>=-eq-ok (resolve_profile ds fuel (id ∷ path) d.extends resolved) _ h2 in
        add_child-Safe d parent.0 parent.1
          (resolve_profile-Safe fuel (id ∷ path) d.extends resolved safe found) done

  known_or-fuel :
      (o : Option ResolvedEntry) (resolved : Resolved)
      (later : Result RuntimeProfileConfigurationError (ResolvedEntry × Resolved))
      → later ≢ err out_of_fuel
      → known_or ds o resolved later ≢ err out_of_fuel
  known_or-fuel none resolved later f h = f h
  known_or-fuel (some e) resolved later f h = ground arith

  needed-fuel {κ} :
      {B : Type κ} (o : Option CustomRuntimeProfileDefinition)
      (next : CustomRuntimeProfileDefinition → Result RuntimeProfileConfigurationError B)
      → (needed ds o >>= next) ≡ err out_of_fuel
      → (d : CustomRuntimeProfileDefinition) × (o ≡ some d) × (next d ≡ err out_of_fuel)
  needed-fuel none next h = cc
  needed-fuel (some d) next h = (d, refl, h)

  resolve_all-Safe :
      (todo : List CustomRuntimeProfileDefinition) (resolved : Resolved) {result : Resolved}
      → Safe resolved
      → resolve_all ds todo resolved ≡ ok result
      → Safe result
  unfolding resolve_all
  resolve_all-Safe [] resolved {result} safe h = subst Safe (ok-injective resolved result h) safe
  resolve_all-Safe (d ∷ todo) resolved safe h =
      let (found, reached, done) =
        >>=-eq-ok (resolve_profile ds (length ds) [] d.id resolved) _ h in
      resolve_all-Safe todo found.1 (resolve_profile-Safe (length ds) [] d.id resolved safe reached)
        done

  add_child-fuel :
      (d : CustomRuntimeProfileDefinition) (parent : ResolvedEntry × Resolved)
      → add_child ds d parent ≢ err out_of_fuel
  unfolding add_child
  add_child-fuel d (parent, resolved) h = ground arith

  -- Enough fuel: a path of calls holds different definitions, so it is no longer than the list.
  resolve_profile-fuel :
      (fuel : ℕ) (path : List Text) (id : Text) (resolved : Resolved)
      → length ds ≤ fuel + length path
      → IsDistinct path
      → All (λ x. Memᴰ x (definition_ids ds)) path
      → resolve_profile ds fuel path id resolved ≢ err out_of_fuel
  unfolding resolve_profile
  resolve_profile-fuel zero path id resolved enough distinct defined =
      known_or-fuel (resolved_by_id id resolved) resolved _ λ h.
        let (fresh, h1) = guard-fuel (any (◌==◌ id) path) _ h in
        let (d, found, _) = needed-fuel (definition_by_id id ds) _ h1 in
        let shorter =
          length-IsDistinct-le (id ∷ path) (definition_ids ds) (fresh-All id path fresh, distinct)
            (definition_by_id-mem id ds found, defined) in
        let same = length-definition_ids ds in absurd (omega arith)
  resolve_profile-fuel (suc fuel) path id resolved enough distinct defined =
      known_or-fuel (resolved_by_id id resolved) resolved _ λ h.
        let (fresh, h1) = guard-fuel (any (◌==◌ id) path) _ h in
        let (d, found, h2) = needed-fuel (definition_by_id id ds) _ h1 in
        let ends =
          resolve_profile-fuel fuel (id ∷ path) d.extends resolved (omega arith)
            (fresh-All id path fresh, distinct) (definition_by_id-mem id ds found, defined) in
        step-fuel (resolve_profile ds fuel (id ∷ path) d.extends resolved) (add_child ds d) ends
          (add_child-fuel d) h2

  resolve_all-fuel :
      (todo : List CustomRuntimeProfileDefinition) (resolved : Resolved)
      → resolve_all ds todo resolved ≢ err out_of_fuel
  unfolding resolve_all
  resolve_all-fuel [] resolved h = ground arith
  resolve_all-fuel (d ∷ todo) resolved h =
      step-fuel (resolve_profile ds (length ds) [] d.id resolved)
        (λ found. resolve_all ds todo found.1)
        (resolve_profile-fuel (length ds) [] d.id resolved (omega arith) tt tt)
        (λ found. resolve_all-fuel todo found.1) h

validate_definition-fuel :
    (d : CustomRuntimeProfileDefinition) → validate_definition d ≢ err out_of_fuel
unfolding validate_definition
validate_definition-fuel d h = ground arith

validate_definitions-fuel :
    (ds : List CustomRuntimeProfileDefinition) → validate_definitions ds ≢ err out_of_fuel
unfolding validate_definitions
validate_definitions-fuel [] h = ground arith
validate_definitions-fuel (d ∷ ds) h =
    step-fuel (validate_definition d) _ (validate_definition-fuel d)
      (λ _. validate_definitions-fuel ds) h

check_ids-fuel :
    (seen : List Text) (ds : List CustomRuntimeProfileDefinition)
    → check_ids seen ds ≢ err out_of_fuel
unfolding check_ids
check_ids-fuel seen [] h = ground arith
check_ids-fuel seen (d ∷ ds) h = let later = check_ids-fuel (d.id ∷ seen) ds in ground arith

-- The resolution of custom profiles never runs out of fuel: defineRuntimeProfiles returns a
-- registry or throws an error of the code.
pub define_runtime_profiles-fuel :
    (ds : List CustomRuntimeProfileDefinition) → define_runtime_profiles ds ≢ err out_of_fuel
unfolding define_runtime_profiles
define_runtime_profiles-fuel ds =
    step-fuel (validate_definitions ds) _ (validate_definitions-fuel ds) λ _.
      step-fuel (check_ids [] ds) _ (check_ids-fuel [] ds) λ _.
        step-fuel (resolve_all ds ds initially_resolved) _
          (resolve_all-fuel ds ds initially_resolved) λ r h. ground arith

learning_ids-capture :
    (id : Text) (resolved : Resolved)
    → Safe resolved
    → Memᴰ id (learning_ids resolved)
    → (p : RuntimeProfile) × Memᴰ (id, p) (resolved_profiles resolved) × (p.capture_enabled ≡ true)
learning_ids-capture id [] safe m = elim m [ ]
learning_ids-capture id (e ∷ es) safe m = elim (Bool-cases e.inherits_learning) [
  | inr f ↦
      let (p, listed, on) = learning_ids-capture id es safe.1 (rw f at m) in
      (p, Memᴰ.tail listed, on)
  | inl t ↦ elim (rw t at m) [
    | Memᴰ.head same ↦ (e.profile, Memᴰ.head (ap (λ x. (x, e.profile)) same), safe.0 t)
    | Memᴰ.tail n ↦
        let (p, listed, on) = learning_ids-capture id es safe.1 n in (p, Memᴰ.tail listed, on)
  ]
]

-- Every id in the learning lineage of a registry that defineRuntimeProfiles returns is the id of a
-- profile of the registry that keeps capture enabled.
pub define_runtime_profiles-capture :
    (ds : List CustomRuntimeProfileDefinition) {registry : RuntimeProfileRegistry} (id : Text)
    → define_runtime_profiles ds ≡ ok registry
    → Memᴰ id registry.learning_profile_ids
    → (p : RuntimeProfile) × Memᴰ (id, p) registry.profiles × (p.capture_enabled ≡ true)
unfolding define_runtime_profiles
define_runtime_profiles-capture ds {registry} id h m =
    let (_, _, h1) = >>=-eq-ok (validate_definitions ds) _ h in
    let (_, _, h2) = >>=-eq-ok (check_ids [] ds) _ h1 in
    let (resolved, all_done, done) = >>=-eq-ok (resolve_all ds ds initially_resolved) _ h2 in
    let safe =
      resolve_all-Safe ds ds initially_resolved ((λ _. refl), ((λ _. refl), ((λ _. refl), tt)))
        all_done in
    let made : RuntimeProfileRegistry = record {
      definitions = ds;
      profiles = resolved_profiles resolved;
      learning_profile_ids = learning_ids resolved;
    } in
    let same = ok-injective made registry done in
    subst
      (λ r.
        Memᴰ id r.learning_profile_ids
        → (p : RuntimeProfile) × Memᴰ (id, p) r.profiles × (p.capture_enabled ≡ true))
      same (learning_ids-capture id resolved safe) m
