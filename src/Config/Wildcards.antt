-- ===== src/Config/Wildcards.antt =====
-- Which wildcard selector is chosen.
use mathlib.Core.Path.{subst}
use agent_experience_agentic.Common.{
  ◌&&◌, ◌∙◌, filter-mem, ℕ, ◌≤◌, ◌<◌, List, [], ◌∷◌, Bool, true, Option, none, some, ok, ◌≡◌, refl,
  sym, ◌⊎◌, inl, inr, arith, filter, All, All-mem, All-filter, Memᴰ, nat_eq, ltb, Bool-cases,
}
use agent_experience_agentic.Config.Settings.{ProfileResolutionError, ambiguous_wildcard}
use agent_experience_agentic.Config.Selectors.{
  MatchedSelector, reject_ambiguity, better, best_from, is_best, select_wildcard,
}

-- No worse: more literals, or as many and no more stars.
abbrev pub AtLeast : ℕ × ℕ → ℕ × ℕ → Type 0
AtLeast (l, w) (l', w') = (l' < l) ⊎ ((l ≡ l') × (w ≤ w'))

abbrev pub counts : MatchedSelector → ℕ × ℕ
counts m = (m.literal_count, m.wildcard_count)

AtLeast-trans : (a b c : ℕ × ℕ) → AtLeast a b → AtLeast b c → AtLeast a c
AtLeast-trans (l, w) (l', w') (l2, w2) h k = ground arith

AtLeast-refl : (a : ℕ × ℕ) → AtLeast a a
AtLeast-refl (l, w) = ground arith

better_ge :
    (b : ℕ × ℕ) (m : MatchedSelector)
    → (c : ℕ × ℕ) × (better (some b) m ≡ some c) × AtLeast c b × AtLeast c (counts m)
unfolding better
better_ge (l, w) m = elim (Bool-cases (ltb l m.literal_count)) [
  | inl t ↦ (counts m, rw t refl, ground arith, ground arith)
  | inr f ↦ elim (Bool-cases (nat_eq m.literal_count l && ltb m.wildcard_count w)) [
    | inl t ↦ ((l, m.wildcard_count), rw (f, t) refl, ground arith, ground arith)
    | inr g ↦ ((l, w), rw (f, g) refl, ground arith, ground arith)
  ]
]

best_from_ge :
    (b : ℕ × ℕ) (ms : List MatchedSelector)
    → (c : ℕ × ℕ) × (best_from (some b) ms ≡ some c)
      × AtLeast c b
      × All (λ n. AtLeast c (counts n)) ms
unfolding best_from
best_from_ge b [] = (b, refl, AtLeast-refl b, tt)
best_from_ge b (m ∷ ms) =
    let (c, step, over_b, over_m) = better_ge b m in
    let (d, run, over_c, rest) = best_from_ge c ms in
    (
      d,
      rw step run,
      AtLeast-trans d c b over_c over_b,
      (AtLeast-trans d c (counts m) over_c over_m, rest),
    )

best_of :
    (ms : List MatchedSelector) {c : ℕ × ℕ}
    → best_from none ms ≡ some c
    → All (λ n. AtLeast c (counts n)) ms
unfolding best_from better
best_of [] h = cc
best_of (m ∷ ms) {c} h =
    let (d, run, over_m, rest) = best_from_ge (counts m) ms in
    let same : d ≡ c = some-injective d c (sym run ∙ h) in
    subst (λ x. All (λ n. AtLeast x (counts n)) (m ∷ ms)) same (over_m, rest)
  where
    some-injective : (a b : ℕ × ℕ) → ◌≡◌ {A = Option (ℕ × ℕ)} (some a) (some b) → a ≡ b
    some-injective a b e = cc

reject_ambiguity-some :
    (ms : List MatchedSelector) (e : ProfileResolutionError) {m : MatchedSelector}
    → reject_ambiguity ms e ≡ ok (some m)
    → ms ≡ m ∷ []
unfolding reject_ambiguity
reject_ambiguity-some [] e h = cc
reject_ambiguity-some (x ∷ []) e h = cc
reject_ambiguity-some (_ ∷ _ ∷ _) e h = cc

is_best-counts :
    (best : Option (ℕ × ℕ)) (m : MatchedSelector) → is_best best m ≡ true → best ≡ some (counts m)
unfolding is_best
is_best-counts none m h = cc
is_best-counts (some (l, w)) m h =
    let same_l : l ≡ m.literal_count = ground arith in
    let same_w : w ≡ m.wildcard_count = ground arith in rw (same_l, same_w) refl

filter-mem-of {ℓ} :
    {A : Type ℓ} (p : A → Bool) {x : A} (xs : List A) → Memᴰ x (filter p xs) → Memᴰ x xs
filter-mem-of p [] m = elim m [ ]
filter-mem-of p (y ∷ ys) m = elim (Bool-cases (p y)) [
  | inr f ↦ Memᴰ.tail (filter-mem-of p ys (rw f at m))
  | inl t ↦ elim (rw t at m) [
    | Memᴰ.head e ↦ Memᴰ.head e
    | Memᴰ.tail n ↦ Memᴰ.tail (filter-mem-of p ys n)
  ]
]

-- The selector that selectWildcard returns is one of the matches, has a wildcard, and is at least
-- as specific as every match with one: more literals, or as many literals and no more wildcards.
pub select_wildcard-best :
    (ms : List MatchedSelector) {m : MatchedSelector}
    → select_wildcard ms ≡ ok (some m)
    → Memᴰ m ms
      × (0 < m.wildcard_count)
      × ((n : MatchedSelector) → Memᴰ n ms → 0 < n.wildcard_count → AtLeast (counts m) (counts n))
unfolding select_wildcard
select_wildcard-best ms {m} h =
    let starred = filter (λ m. ltb 0 m.wildcard_count) ms in
    let best = best_from none starred in
    let one = reject_ambiguity-some (filter (is_best best) starred) ambiguous_wildcard h in
    let here : Memᴰ m (filter (is_best best) starred) = rw one (Memᴰ.head refl) in
    let chosen : is_best best m ≡ true =
      All-mem _ (filter (is_best best) starred) here (All-filter (is_best best) starred) in
    let among = filter-mem-of (is_best best) starred here in
    let star : ltb 0 m.wildcard_count ≡ true = All-mem _ starred among (All-filter _ ms) in
    let over = best_of starred (is_best-counts best m chosen) in
    (
      filter-mem-of _ ms among,
      ground arith,
      λ n i p.
          All-mem _ starred (filter-mem (λ m. ltb 0 m.wildcard_count) ms i (ground arith)) over,
    )
