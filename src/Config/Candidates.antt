-- ===== src/Config/Candidates.antt =====
-- The documented order of precedence of the candidates of profile-resolver.ts.
use mathlib.Core.Path.{subst}
use mathlib.Core.List.{append-nil}
use agent_experience_agentic.Common.{
  ℕ, suc, ◌≤◌, List, [], ◌∷◌, ◌++◌, nat_eq, if◌then◌else◌, Option, none, some, ok, ◌≡◌, sym, ap,
  ◌∙◌, refl, arith, leb, All, Memᴰ, inl, inr, Bool-cases,
}
use agent_experience_agentic.Config.Settings.{
  ProfileSource, session_override, local_exact, local_wildcard, repository_shared, global_exact,
  global_wildcard, global_default, built_in_default, RuntimeProfileSelection, by_id,
  ResolvedSetting, Candidate, Profiles, resolve_setting,
}
use agent_experience_agentic.Config.Selectors.{MatchedSelector}
use agent_experience_agentic.Config.Resolver.{ProfileResolutionInput, default_id}

-- A session override first, the built-in default last.
abbrev pub rank : ProfileSource → ℕ
rank session_override = 0
rank local_exact = 1
rank local_wildcard = 2
rank repository_shared = 3
rank global_exact = 4
rank global_wildcard = 5
rank global_default = 6
rank built_in_default = 7

abbrev source_at : ℕ → ProfileSource
source_at n =
    if nat_eq n 0
    then session_override
    else if nat_eq n 1
    then local_exact
    else if nat_eq n 2
    then local_wildcard
    else if nat_eq n 3
    then repository_shared
    else if nat_eq n 4
    then global_exact
    else if nat_eq n 5
    then global_wildcard
    else if nat_eq n 6
    then global_default
    else built_in_default

source_at-rank : (p : ProfileSource) → source_at (rank p) ≡ p
source_at-rank session_override = refl
source_at-rank local_exact = refl
source_at-rank local_wildcard = refl
source_at-rank repository_shared = refl
source_at-rank global_exact = refl
source_at-rank global_wildcard = refl
source_at-rank global_default = refl
source_at-rank built_in_default = refl

rank-le : (p : ProfileSource) → rank p ≤ 7
rank-le session_override = omega arith
rank-le local_exact = omega arith
rank-le local_wildcard = omega arith
rank-le repository_shared = omega arith
rank-le global_exact = omega arith
rank-le global_wildcard = omega arith
rank-le global_default = omega arith
rank-le built_in_default = omega arith

rank-injective : (p q : ProfileSource) → rank p ≡ rank q → p ≡ q
rank-injective p q e = sym (source_at-rank p) ∙ (ap source_at e ∙ source_at-rank q)

-- The ranks of the sources go up, from `least` on.
abbrev pub IsRanked : (least : ℕ) → List Candidate → Type 0
IsRanked least [] = Unit {0}
IsRanked least (c ∷ cs) = (least ≤ rank c.source) × IsRanked (suc (rank c.source)) cs

IsRanked-mono :
    (small least : ℕ) (cs : List Candidate) → small ≤ least → IsRanked least cs → IsRanked small cs
IsRanked-mono small least [] l h = tt
IsRanked-mono small least (c ∷ cs) l h = (omega (arith, h.0), h.1)

-- The selectors that win among those that match.
pub record Winners : Type 0 where
  pub local_exact : Option MatchedSelector
  pub local_wildcard : Option MatchedSelector
  pub global_exact : Option MatchedSelector
  pub global_wildcard : Option MatchedSelector

abbrev pub selection_of : Option MatchedSelector → Option RuntimeProfileSelection
selection_of none = none
selection_of (some m) = some m.selector.profile

-- What the input says at a source.
abbrev pub setting_at :
    ProfileResolutionInput → Winners → ProfileSource → Option RuntimeProfileSelection
setting_at i w session_override = i.session_override
setting_at i w local_exact = selection_of w.local_exact
setting_at i w local_wildcard = selection_of w.local_wildcard
setting_at i w repository_shared = i.repository_shared
setting_at i w global_exact = selection_of w.global_exact
setting_at i w global_wildcard = selection_of w.global_wildcard
setting_at i w global_default = i.global_default
setting_at i w built_in_default = some (by_id (default_id i.built_in_default))

module _ (registry : Profiles) (setting : ProfileSource → Option RuntimeProfileSelection) where
  -- The candidate has the values of the setting at its source.
  pub record IsOfSource (c : Candidate) : Type 0 where
    pub selection : RuntimeProfileSelection
    pub set : setting c.source ≡ some selection
    pub resolved : ResolvedSetting
    pub resolves : resolve_setting selection registry ≡ ok resolved
    pub values : c.values ≡ resolved.values
    pub profile_id : c.profile_id ≡ resolved.profile_id

  abbrev pub IsListed : List Candidate → ProfileSource → Type 0
  IsListed cs p = (c : Candidate) × Memᴰ c cs × (c.source ≡ p)

  -- One candidate for each source from `least` on that has a setting, in the order of precedence.
  pub record AreCandidates (least : ℕ) (cs : List Candidate) : Type 0 where
    pub ranked : IsRanked least cs
    pub sound : All IsOfSource cs
    pub complete :
        (p : ProfileSource) (s : RuntimeProfileSelection)
        → least ≤ rank p
        → setting p ≡ some s
        → IsListed cs p

  -- The candidates of one source.
  pub data IsBlock (p : ProfileSource) : List Candidate → Type 0 where
    absent : setting p ≡ none → IsBlock p []
    present : (c : Candidate) → c.source ≡ p → IsOfSource c → IsBlock p (c ∷ [])

  IsListed-cons :
      (c : Candidate) (cs : List Candidate) (p : ProfileSource)
      → IsListed cs p
      → IsListed (c ∷ cs) p
  IsListed-cons c cs p (d, m, e) = (d, Memᴰ.tail m, e)

  from_next :
      (p q : ProfileSource) → rank p ≤ rank q → (rank p ≡ rank q → ⊥) → suc (rank p) ≤ rank q
  from_next p q h k = ground (arith, h, k)

  pub AreCandidates-append :
      (p : ProfileSource) (xs ys : List Candidate)
      → IsBlock p xs
      → AreCandidates (suc (rank p)) ys
      → AreCandidates (rank p) (xs ++ ys)
  AreCandidates-append p [] ys (IsBlock.absent missing) h = record {
    ranked = IsRanked-mono (rank p) (suc (rank p)) ys (omega arith) h.ranked;
    sound = h.sound;
    complete = λ q s above set.
        h.complete q s
          (from_next p q above (λ e.
            let same : setting p ≡ setting q = ap setting (rank-injective p q e) in
            ground (arith, missing, set, same)))
          set;
  }
  AreCandidates-append p (c ∷ (_ ∷ _)) ys block h = elim block [ ]
  AreCandidates-append p (c ∷ []) ys (IsBlock.present _ source of_source) h = record {
    ranked = (
      ground (arith, ap rank source),
      subst (λ n. IsRanked (suc n) ys) (sym (ap rank source)) h.ranked,
    );
    sound = (of_source, h.sound);
    complete = λ q s above set. elim (Bool-cases (leb (rank q) (rank p))) [
      | inl low ↦
          let same : rank p ≡ rank q = ground (arith, low, above) in
          (c, Memᴰ.head refl, source ∙ rank-injective p q same)
      | inr high ↦ IsListed-cons c ys q (h.complete q s (ground (arith, high)) set)
    ];
  }

  pub AreCandidates-last :
      (p : ProfileSource) (xs : List Candidate)
      → IsBlock p xs
      → rank p ≡ 7
      → AreCandidates (rank p) xs
  AreCandidates-last p xs block last = rw append-nil at (
      AreCandidates-append p xs [] block (record {
        ranked = tt;
        sound = tt;
        complete = λ q s above set. absurd (let l = rank-le q in omega (arith, above, last));
      }))
