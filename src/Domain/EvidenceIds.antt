-- ===== src/Domain/EvidenceIds.antt =====
-- The evidence ids of an entry under `applyTransition`: each is attached once.
use agent_experience_agentic.Common.{
  Text, ◌==◌, ==_iff, ==_refl, Option, none, some, List, [], ◌∷◌, ◌++◌, Bool, true, false, ◌||◌,
  ◌≡◌, refl, ◌≢◌, ◌⊎◌, inl, inr, arith, Bool-cases, any, All-append, IsDistinct,
}
use agent_experience_agentic.Domain.Types.{
  KnowledgeState, Evidence, KnowledgeEntry, TransitionHistoryEntry, TransitionResult,
}
use agent_experience_agentic.Domain.Transitions.{apply_transition, move_to, is_refused, next_state}
use agent_experience_agentic.Domain.History.{replay}

IsDistinct-concat :
    (xs : List Text) (y : Text)
    → any (◌==◌ y) xs ≡ false
    → IsDistinct xs
    → IsDistinct (xs ++ y ∷ [])
IsDistinct-concat [] y new d = (tt, tt)
IsDistinct-concat (x ∷ xs) y new d =
    let (apart, rest) = or-eq-false (y == x) (any (◌==◌ y) xs) new in
    (
      All-append (λ z. x ≢ z) xs (y ∷ []) d.0 ((λ e. ground (arith, ==_iff y x)), tt),
      IsDistinct-concat xs y rest d.1,
    )
  where
    or-eq-false : (a b : Bool) → (a || b) ≡ false → (a ≡ false) × (b ≡ false)
    or-eq-false true b h = cc
    or-eq-false false b h = (refl, h)

-- Evidence that is attached already is refused.
attached_refused :
    (entry : KnowledgeEntry) (e : Evidence) (target : Option KnowledgeState)
    → any (◌==◌ e.id) entry.evidence_ids ≡ true
    → is_refused entry e target ≡ true
unfolding is_refused
attached_refused entry e target h = ground arith

fresh_of_taken :
    (entry : KnowledgeEntry) (e : Evidence) (target : Option KnowledgeState)
    → is_refused entry e target ≡ false
    → any (◌==◌ e.id) entry.evidence_ids ≡ false
fresh_of_taken entry e target h = elim (Bool-cases (any (◌==◌ e.id) entry.evidence_ids)) [
  | inl old ↦ let r = attached_refused entry e target old in cc
  | inr new ↦ new
]

move_to-evidence_ids :
    (entry : KnowledgeEntry) (e : Evidence) (h : List TransitionHistoryEntry)
    (next : Option KnowledgeState)
    → (move_to entry e h next).entry.evidence_ids ≡ entry.evidence_ids ++ e.id ∷ []
unfolding move_to
move_to-evidence_ids entry e h none = refl
move_to-evidence_ids entry e h (some next) = ground arith

-- What a call does: nothing at all, or the evidence id, which was not there, goes to the end.
apply_transition-evidence_ids :
    (entry : KnowledgeEntry) (e : Evidence) (h : List TransitionHistoryEntry)
    (target : Option KnowledgeState)
    → ((apply_transition entry e h target ≡ record { entry = entry; history = h })
        × (is_refused entry e target ≡ true))
      ⊎ (((apply_transition entry e h target).entry.evidence_ids ≡ entry.evidence_ids ++ e.id ∷ [])
          × (any (◌==◌ e.id) entry.evidence_ids ≡ false))
unfolding apply_transition
apply_transition-evidence_ids entry e h target = elim (Bool-cases (is_refused entry e target)) [
  | inl refused ↦ rw refused (inl (refl, refl))
  | inr taken ↦ rw taken (
      inr (
        move_to-evidence_ids entry e h (next_state target entry e),
        fresh_of_taken entry e target taken,
      ))
]

apply_transition-IsDistinct :
    (entry : KnowledgeEntry) (e : Evidence) (h : List TransitionHistoryEntry)
    (target : Option KnowledgeState)
    → IsDistinct entry.evidence_ids
    → IsDistinct (apply_transition entry e h target).entry.evidence_ids
apply_transition-IsDistinct entry e h target d =
    elim (apply_transition-evidence_ids entry e h target) [
      | inl (same, _) ↦ rw same d
      | inr (longer, new) ↦ rw longer (IsDistinct-concat entry.evidence_ids e.id new d)
    ]

-- No sequence of calls attaches the same evidence twice.
pub replay-IsDistinct :
    (r : TransitionResult) (es : List (Evidence × Option KnowledgeState))
    → IsDistinct r.entry.evidence_ids
    → IsDistinct (replay r es).entry.evidence_ids
unfolding replay
replay-IsDistinct r [] d = d
replay-IsDistinct r ((e, target) ∷ es) d =
    replay-IsDistinct (apply_transition r.entry e r.history target) es
      (apply_transition-IsDistinct r.entry e r.history target d)

any-concat : (x : Text) (xs : List Text) → any (◌==◌ x) (xs ++ x ∷ []) ≡ true
any-concat x [] = rw (==_refl x)
any-concat x (y ∷ ys) = ground (arith, any-concat x ys)

refused_unchanged :
    (entry : KnowledgeEntry) (e : Evidence) (h : List TransitionHistoryEntry)
    (target : Option KnowledgeState)
    → is_refused entry e target ≡ true
    → apply_transition entry e h target ≡ record { entry = entry; history = h }
unfolding apply_transition
refused_unchanged entry e h target r = rw r

-- Applying the same evidence a second time, under the same target, changes nothing.
pub apply_transition_idempotent :
    (entry : KnowledgeEntry) (e : Evidence) (h : List TransitionHistoryEntry)
    (target : Option KnowledgeState)
    → let r = apply_transition entry e h target in apply_transition r.entry e r.history target ≡ r
apply_transition_idempotent entry e h target =
    elim (apply_transition-evidence_ids entry e h target) [
      | inl (same, refused) ↦ rw same (refused_unchanged entry e h target refused)
      | inr (longer, new) ↦
          let r = apply_transition entry e h target in
          refused_unchanged r.entry e r.history target
            (attached_refused r.entry e target (rw longer (any-concat e.id entry.evidence_ids)))
    ]
