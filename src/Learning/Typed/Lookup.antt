-- ===== src/Learning/Typed/Lookup.antt =====
-- What the look-ups of typed evidence give is of that evidence.
use agent_experience_agentic.Common.{
  Text, ◌==◌, List, [], ◌∷◌, Bool, true, false, if◌then◌else◌, Option, none, some, find,
  find-eq-some, ◌≡◌, refl, All, All-mem,
}
use agent_experience_agentic.Learning.Episodes.{EpisodeEvidence, listed}
use agent_experience_agentic.Learning.Typed.{by_evidence_id, get_all, first_of, id_of}

abbrev pub OptionAll {κ} : (EpisodeEvidence → Type κ) → Option EpisodeEvidence → Type κ
OptionAll Q none = Unit
OptionAll Q (some e) = Q e

module _ {κ} (P : Text → Type κ) where
  abbrev pub Has : EpisodeEvidence → Type κ
  Has e = P e.id

  pub by_evidence_id-Has :
      (items : List EpisodeEvidence) (id : Text)
      → All Has items
      → OptionAll Has (by_evidence_id items id)
  unfolding by_evidence_id
  by_evidence_id-Has [] id h = tt
  by_evidence_id-Has (item ∷ items) id h =
      later (by_evidence_id items id) (by_evidence_id-Has items id h.1) (item.id == id)
    where
      later :
          (o : Option EpisodeEvidence)
          → OptionAll Has o
          → (b : Bool)
          → OptionAll Has
              (elim o [ some later ↦ some later | none ↦ if b then some item else none ])
      later (some e) k b = k
      later none k true = h.0
      later none k false = tt

  pub get_all-Has :
      (evidence : List EpisodeEvidence) (ids : List Text)
      → All Has evidence
      → All Has (get_all evidence ids)
  unfolding get_all
  get_all-Has evidence [] h = tt
  get_all-Has evidence (id ∷ ids) h =
      add (by_evidence_id evidence id) (by_evidence_id-Has evidence id h)
        (get_all-Has evidence ids h)
    where
      add :
          (o : Option EpisodeEvidence)
          → OptionAll Has o
          → All Has (get_all evidence ids)
          → All Has
              (elim o [ none ↦ get_all evidence ids | some item ↦ item ∷ get_all evidence ids ])
      add none k rest = rest
      add (some e) k rest = (k, rest)

  pub first_of-Has : (xs : List EpisodeEvidence) → All Has xs → OptionAll Has (first_of xs)
  first_of-Has [] h = tt
  first_of-Has (x ∷ xs) h = h.0

  pub find-Has :
      (p : EpisodeEvidence → Bool) (xs : List EpisodeEvidence)
      → All Has xs
      → OptionAll Has (find p xs)
  find-Has p xs h = found (find p xs) refl
    where
      found : (o : Option EpisodeEvidence) → find p xs ≡ o → OptionAll Has o
      found none e = tt
      found (some x) e = All-mem Has xs (find-eq-some p xs e).1 h

  pub listed-All : (o : Option EpisodeEvidence) → OptionAll Has o → All P (listed (id_of o))
  listed-All none h = tt
  listed-All (some e) h = (h, tt)
