-- ===== src/Runtime/Paths/Segments.antt =====
-- `normalizeSegments`: what its segments are, and that it leaves normal segments alone.
use agent_experience_agentic.Common.{
  ℕ, Text, codes, ◌==◌, ==_iff, List, [], ◌∷◌, ◌++◌, Bool, true, false, ◌≡◌, refl, ◌≢◌, ◌∙◌, ap,
  sym, arith, All, All-mono, All-append, Lacks, split, split-Lacks, split-join, All-split, join,
}
use mathlib.Core.List.{reverse, reverse-cons, append_assoc, append-nil}
use agent_experience_agentic.Runtime.Paths.{
  slash, push_segment, push_segments, raw_segments, normalize_segments,
}

-- A segment that names an entry: not empty, not "." or "..", and with no slash in it.
abbrev pub IsPlain : Text → Type 0
IsPlain w = (w ≢ []) × (w ≢ codes ".") × (w ≢ codes "..") × Lacks slash w

push_segment-IsPlain :
    (segments : List Text) (part : Text)
    → All IsPlain segments
    → Lacks slash part
    → All IsPlain (push_segment true segments part)
unfolding push_segment
push_segment-IsPlain [] part h k =
    ground (arith, ==_iff part [], ==_iff part (codes "."), ==_iff part (codes ".."))
push_segment-IsPlain (last ∷ rest) part h k = ground (
  arith,
  ==_iff part [],
  ==_iff part (codes "."),
  ==_iff part (codes ".."),
  ==_iff last (codes ".."),
)

All-reverse {ℓ κ} : {A : Type ℓ} (P : A → Type κ) (xs : List A) → All P xs → All P (reverse xs)
All-reverse P [] h = tt
All-reverse P (x ∷ xs) h =
    rw (reverse-cons x xs) (All-append P (reverse xs) (x ∷ []) (All-reverse P xs h.1) (h.0, tt))

push_segments-IsPlain :
    (segments parts : List Text)
    → All IsPlain segments
    → All (Lacks slash) parts
    → All IsPlain (push_segments true segments parts)
unfolding push_segments
push_segments-IsPlain segments [] h k = All-reverse IsPlain segments h
push_segments-IsPlain segments (part ∷ parts) h k =
    push_segments-IsPlain (push_segment true segments part) parts
      (push_segment-IsPlain segments part h k.0) k.1

module _ (lower : Text → Text) where
  raw_segments-Lacks :
      (case_insensitive : Bool)
      → ((w : Text) → Lacks slash w → Lacks slash (lower w))
      → (parts : List Text) → All (Lacks slash) parts
      → All (Lacks slash) (raw_segments lower case_insensitive parts)
  unfolding raw_segments
  raw_segments-Lacks case_insensitive keeps [] h = tt
  raw_segments-Lacks true keeps (w ∷ parts) h =
      (keeps w h.0, raw_segments-Lacks true keeps parts h.1)
  raw_segments-Lacks false keeps (w ∷ parts) h = (h.0, raw_segments-Lacks false keeps parts h.1)

  raw_segments_sensitive : (parts : List Text) → raw_segments lower false parts ≡ parts
  unfolding raw_segments
  raw_segments_sensitive [] = refl
  raw_segments_sensitive (w ∷ parts) = ap (◌∷◌ w) (raw_segments_sensitive parts)

  -- No segment of a normalised absolute path is empty, dot, dot-dot or holds a slash.
  pub normalize_segments-IsPlain :
      (path : Text) (case_insensitive : Bool)
      → ((w : Text) → Lacks slash w → Lacks slash (lower w))
      → All IsPlain (normalize_segments lower path true case_insensitive)
  unfolding normalize_segments
  normalize_segments-IsPlain path case_insensitive keeps =
      push_segments-IsPlain [] _ tt
        (raw_segments-Lacks case_insensitive keeps _ (split-Lacks slash path))

  pub normalize_segments-IsPlain_sensitive :
      (path : Text) → All IsPlain (normalize_segments lower path true false)
  unfolding normalize_segments
  normalize_segments-IsPlain_sensitive path =
      rw (raw_segments_sensitive (split slash path))
        (push_segments-IsPlain [] (split slash path) tt (split-Lacks slash path))

push_segment_of_IsPlain :
    (absolute : Bool) (segments : List Text) (part : Text)
    → IsPlain part
    → push_segment absolute segments part ≡ part ∷ segments
unfolding push_segment
push_segment_of_IsPlain absolute [] part h =
    ground (arith, ==_iff part [], ==_iff part (codes "."), ==_iff part (codes ".."))
push_segment_of_IsPlain absolute (last ∷ rest) part h =
    ground (arith, ==_iff part [], ==_iff part (codes "."), ==_iff part (codes ".."))

pub push_segments_of_IsPlain :
    (absolute : Bool) (segments parts : List Text)
    → All IsPlain parts
    → push_segments absolute segments parts ≡ reverse segments ++ parts
unfolding push_segments
push_segments_of_IsPlain absolute segments [] h = sym (append-nil _)
push_segments_of_IsPlain absolute segments (part ∷ parts) h =
    ap (λ s. push_segments absolute s parts) (push_segment_of_IsPlain absolute segments part h.0)
    ∙ push_segments_of_IsPlain absolute (part ∷ segments) parts h.1
    ∙ simp (reverse-cons, append_assoc)

module _ (lower : Text → Text) where
  -- Normal segments that are joined behind a slash are read back as they were.
  pub normalize_segments-join :
      (segments : List Text)
      → All IsPlain segments
      → normalize_segments lower (slash ∷ join slash segments) true false ≡ segments
  unfolding normalize_segments join ◌==◌
  normalize_segments-join [] h = refl
  normalize_segments-join (w ∷ ws) h =
      rw
        (
          raw_segments_sensitive lower (split slash (join slash (w ∷ ws))),
          split-join slash w ws (All-mono (w ∷ ws) (λ x p. p.3) h),
        )
        (push_segments_of_IsPlain true [] (w ∷ ws) h)

push_segment-All {κ} :
    (Q : Text → Type κ) (absolute : Bool) (segments : List Text) (part : Text)
    → All Q segments
    → Q part
    → All Q (push_segment absolute segments part)
unfolding push_segment
push_segment-All Q absolute [] part h q = ground arith
push_segment-All Q absolute (last ∷ rest) part h q = ground arith

push_segments-All {κ} :
    (Q : Text → Type κ) (absolute : Bool) (segments parts : List Text)
    → All Q segments
    → All Q parts
    → All Q (push_segments absolute segments parts)
unfolding push_segments
push_segments-All Q absolute segments [] h k = All-reverse Q segments h
push_segments-All Q absolute segments (part ∷ parts) h k =
    push_segments-All Q absolute (push_segment absolute segments part) parts
      (push_segment-All Q absolute segments part h k.0) k.1

-- What holds of every unit of a path holds of every unit of its segments.
pub All-normalize_segments {κ} :
    (lower : Text → Text) (P : ℕ → Type κ) (path : Text) (absolute : Bool)
    → All P path
    → All (All P) (normalize_segments lower path absolute false)
unfolding normalize_segments
All-normalize_segments lower P path absolute h =
    rw (raw_segments_sensitive lower (split slash path))
      (push_segments-All (All P) absolute [] (split slash path) tt (All-split P slash path h))
