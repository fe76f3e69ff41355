-- ===== src/Config/Collected.antt =====
-- That the candidates which resolveProfileTarget collects follow the order of precedence.
use mathlib.Core.Path.{subst}
use agent_experience_agentic.Common.{
  Text, Bool, List, [], ◌++◌, ◌==◌, any, Option, none, some, ok, ◌≡◌, refl, >>=-eq-ok, guard-eq-ok,
  ok-injective,
}
use agent_experience_agentic.Config.Settings.{
  ProfileSource, session_override, local_exact, local_wildcard, repository_shared, global_exact,
  global_wildcard, global_default, built_in_default, RuntimeProfileSelection, by_id, Candidate,
  Profiles, resolve_setting,
}
use agent_experience_agentic.Config.Selectors.{
  MatchedSelector, select_exact, select_wildcard, match_selectors,
}
use agent_experience_agentic.Config.Resolver.{
  ProfileResolutionInput, setting_candidate, selector_candidate, default_id, default_candidates,
  global_candidates, collect_candidates, check_workspace, check_remote,
}
use agent_experience_agentic.Config.Candidates.{
  Winners, selection_of, setting_at, AreCandidates, IsBlock, AreCandidates-append,
  AreCandidates-last,
}

module _ (registry : Profiles) (setting : ProfileSource → Option RuntimeProfileSelection) where
  setting_candidate-IsBlock :
      (p : ProfileSource) (o : Option RuntimeProfileSelection) (xs : List Candidate)
      → setting p ≡ o
      → setting_candidate p o registry ≡ ok xs
      → IsBlock registry setting p xs
  unfolding setting_candidate
  setting_candidate-IsBlock p none xs said h =
      subst (IsBlock registry setting p) (ok-injective [] xs h) (IsBlock.absent said)
  setting_candidate-IsBlock p (some selection) xs said h =
      let (resolved, resolves, done) = >>=-eq-ok (resolve_setting selection registry) _ h in
      subst (IsBlock registry setting p) (ok-injective _ xs done) (
        IsBlock.present _ refl (record {
          selection = selection;
          set = said;
          resolved = resolved;
          resolves = resolves;
          values = refl;
          profile_id = refl;
        }))

  selector_candidate-IsBlock :
      (p : ProfileSource) (o : Option MatchedSelector) (xs : List Candidate)
      → setting p ≡ selection_of o
      → selector_candidate p o registry ≡ ok xs
      → IsBlock registry setting p xs
  unfolding selector_candidate
  selector_candidate-IsBlock p none xs said h =
      subst (IsBlock registry setting p) (ok-injective [] xs h) (IsBlock.absent said)
  selector_candidate-IsBlock p (some m) xs said h =
      let (resolved, resolves, done) =
        >>=-eq-ok (resolve_setting m.selector.profile registry) _ h in
      subst (IsBlock registry setting p) (ok-injective _ xs done) (
        IsBlock.present _ refl (record {
          selection = m.selector.profile;
          set = said;
          resolved = resolved;
          resolves = resolves;
          values = refl;
          profile_id = refl;
        }))

module _ (registry : Profiles) (i : ProfileResolutionInput) (w : Winners) where
  default_candidates-AreCandidates :
      (cs : List Candidate)
      → default_candidates registry i (default_id i.built_in_default) ≡ ok cs
      → AreCandidates registry (setting_at i w) 6 cs
  unfolding default_candidates
  default_candidates-AreCandidates cs h =
      let default = some (by_id (default_id i.built_in_default)) in
      let (c7, b7, h1) =
        >>=-eq-ok (setting_candidate global_default i.global_default registry) _ h in
      let (c8, b8, done) = >>=-eq-ok (setting_candidate built_in_default default registry) _ h1 in
      let last =
        AreCandidates-last registry (setting_at i w) built_in_default c8
          (setting_candidate-IsBlock registry (setting_at i w) built_in_default default c8 refl b8)
          refl in
      subst (AreCandidates registry (setting_at i w) 6) (ok-injective (c7 ++ c8) cs done) (
        AreCandidates-append registry (setting_at i w) global_default c7 c8
          (setting_candidate-IsBlock registry (setting_at i w) global_default i.global_default c7
            refl b7)
          last)

  global_candidates-AreCandidates :
      (globals : List MatchedSelector) (cs : List Candidate)
      → select_exact globals ≡ ok w.global_exact
      → select_wildcard globals ≡ ok w.global_wildcard
      → global_candidates registry i globals (default_id i.built_in_default) ≡ ok cs
      → AreCandidates registry (setting_at i w) 3 cs
  unfolding global_candidates
  global_candidates-AreCandidates globals cs exact wild h =
      let (c4, b4, h1) =
        >>=-eq-ok (setting_candidate repository_shared i.repository_shared registry) _ h in
      let (c5, b5, h2) =
        >>=-eq-ok (selector_candidate global_exact w.global_exact registry) _ (rw exact at h1) in
      let (c6, b6, h3) =
        >>=-eq-ok (selector_candidate global_wildcard w.global_wildcard registry) _
          (rw wild at h2) in
      let (rest, found, done) =
        >>=-eq-ok (default_candidates registry i (default_id i.built_in_default)) _ h3 in
      let block4 =
        setting_candidate-IsBlock registry (setting_at i w) repository_shared i.repository_shared c4
          refl b4 in
      let block5 =
        selector_candidate-IsBlock registry (setting_at i w) global_exact w.global_exact c5 refl
          b5 in
      let block6 =
        selector_candidate-IsBlock registry (setting_at i w) global_wildcard w.global_wildcard c6
          refl b6 in
      subst (AreCandidates registry (setting_at i w) 3)
        (ok-injective (c4 ++ (c5 ++ (c6 ++ rest))) cs done)
        (AreCandidates-append registry (setting_at i w) repository_shared c4 (c5 ++ (c6 ++ rest))
          block4
          (AreCandidates-append registry (setting_at i w) global_exact c5 (c6 ++ rest) block5 (
            AreCandidates-append registry (setting_at i w) global_wildcard c6 rest block6
              (default_candidates-AreCandidates rest found))))

  local_candidates-AreCandidates :
      (c1 c2 c3 rest cs : List Candidate)
      → setting_candidate session_override i.session_override registry ≡ ok c1
      → selector_candidate local_exact w.local_exact registry ≡ ok c2
      → selector_candidate local_wildcard w.local_wildcard registry ≡ ok c3
      → AreCandidates registry (setting_at i w) 3 rest
      → c1 ++ (c2 ++ (c3 ++ rest)) ≡ cs
      → AreCandidates registry (setting_at i w) 0 cs
  local_candidates-AreCandidates c1 c2 c3 rest cs b1 b2 b3 h done =
      let block1 =
        setting_candidate-IsBlock registry (setting_at i w) session_override i.session_override c1
          refl b1 in
      let block2 =
        selector_candidate-IsBlock registry (setting_at i w) local_exact w.local_exact c2 refl b2 in
      let block3 =
        selector_candidate-IsBlock registry (setting_at i w) local_wildcard w.local_wildcard c3 refl
          b3 in
      subst (AreCandidates registry (setting_at i w) 0) done (
        AreCandidates-append registry (setting_at i w) session_override c1 (c2 ++ (c3 ++ rest))
          block1
          (AreCandidates-append registry (setting_at i w) local_exact c2 (c3 ++ rest) block2
            (AreCandidates-append registry (setting_at i w) local_wildcard c3 rest block3 h)))

global_candidates-winners :
    (registry : Profiles) (i : ProfileResolutionInput) (globals : List MatchedSelector) (id : Text)
    {cs : List Candidate}
    → global_candidates registry i globals id ≡ ok cs
    → (exact : Option MatchedSelector) × (wild : Option MatchedSelector) × (select_exact globals
        ≡ ok exact)
      × (select_wildcard globals ≡ ok wild)
unfolding global_candidates
global_candidates-winners registry i globals id h =
    let (c4, _, h1) =
      >>=-eq-ok (setting_candidate repository_shared i.repository_shared registry) _ h in
    let (exact, e1, h2) = >>=-eq-ok (select_exact globals) _ h1 in
    let (c5, _, h3) = >>=-eq-ok (selector_candidate global_exact exact registry) _ h2 in
    let (wild, e2, _) = >>=-eq-ok (select_wildcard globals) _ h3 in (exact, wild, e1, e2)

module _ (lower : Text → Text) (normalize_remote : Text → Option Text) (built_in : List Text)
    (registry : Profiles) (lineage : Text → Bool) (i : ProfileResolutionInput) where
  -- Each winner is selected from the matches of its list.
  pub record AreWinners (w : Winners) : Type 0 where
    pub locals : List MatchedSelector
    pub globals : List MatchedSelector
    pub match_local : match_selectors lower normalize_remote i.local_selectors i.facts ≡ ok locals
    pub match_global :
        match_selectors lower normalize_remote i.global_selectors i.facts ≡ ok globals
    pub local_exact : select_exact locals ≡ ok w.local_exact
    pub local_wildcard : select_wildcard locals ≡ ok w.local_wildcard
    pub global_exact : select_exact globals ≡ ok w.global_exact
    pub global_wildcard : select_wildcard globals ≡ ok w.global_wildcard

  pub collect_candidates-AreCandidates :
      (cs : List Candidate)
      → collect_candidates lower normalize_remote built_in registry lineage i ≡ ok cs
      → (w : Winners) × AreWinners w × AreCandidates registry (setting_at i w) 0 cs
  unfolding collect_candidates
  collect_candidates-AreCandidates cs h =
      let (_, _, h1) =
        >>=-eq-ok
          (check_workspace lower normalize_remote built_in registry lineage i.facts.workspace_path)
          _ h in
      let (_, _, h2) =
        >>=-eq-ok (check_remote lower normalize_remote built_in registry lineage i.facts.remote_url)
          _ h1 in
      let (locals, matched, h3) =
        >>=-eq-ok (match_selectors lower normalize_remote i.local_selectors i.facts) _ h2 in
      let (globals, matched_global, h4) =
        >>=-eq-ok (match_selectors lower normalize_remote i.global_selectors i.facts) _ h3 in
      let id = default_id i.built_in_default in
      let (_, h5) = guard-eq-ok (any (◌==◌ id) built_in) _ _ h4 in
      let (c1, b1, h6) =
        >>=-eq-ok (setting_candidate session_override i.session_override registry) _ h5 in
      let (exact, e1, h7) = >>=-eq-ok (select_exact locals) _ h6 in
      let (c2, b2, h8) = >>=-eq-ok (selector_candidate local_exact exact registry) _ h7 in
      let (wild, e2, h9) = >>=-eq-ok (select_wildcard locals) _ h8 in
      let (c3, b3, h10) = >>=-eq-ok (selector_candidate local_wildcard wild registry) _ h9 in
      let (rest, found, done) = >>=-eq-ok (global_candidates registry i globals id) _ h10 in
      let (exact_global, wild_global, e3, e4) =
        global_candidates-winners registry i globals id found in
      let w : Winners = record {
        local_exact = exact;
        local_wildcard = wild;
        global_exact = exact_global;
        global_wildcard = wild_global;
      } in
      (
        w,
        record {
          locals = locals;
          globals = globals;
          match_local = matched;
          match_global = matched_global;
          local_exact = e1;
          local_wildcard = e2;
          global_exact = e3;
          global_wildcard = e4;
        },
        local_candidates-AreCandidates registry i w c1 c2 c3 rest cs b1 b2 b3
            (global_candidates-AreCandidates registry i w globals rest e3 e4 found)
            (ok-injective (c1 ++ (c2 ++ (c3 ++ rest))) cs done),
      )
