-- ===== src/Advice/Selection.antt =====
-- selectLocalAdvice of src/advice/selection.ts. The readings of the clock are `now`, by number: one
-- in each turn of the loop and one after it. The order of localeCompare, the test for credentials
-- and the length of the entries as JSON in UTF-8 are parameters.
pub mod Eligible
pub mod Laws
pub mod Timely
use agent_experience_agentic.Common.{
  ℕ, suc, ◌+◌, Text, codes, ◌==◌, List, [], ◌∷◌, ◌++◌, Bool, true, false, not, ◌&&◌, ◌||◌,
  if◌then◌else◌, Option, none, some, is_some, all, any, leb, ltb, length, nat_eq, sort,
}
use agent_experience_agentic.Domain.Types.{LessonKind, convention, project_fact}
use agent_experience_agentic.Runtime.Matcher.{or_empty}

pub data AdviceScope : Type 0 where
  whole_repository : AdviceScope
  subproject : (path : Option Text) → AdviceScope

pub data ContradictionState : Type 0 where
  clear in_dispute : ContradictionState

pub data EntryState : Type 0 where
  verified observed : EntryState

pub record VerifiedAdviceEntry : Type 0 where
  pub candidate_id : Text
  pub revision : Text
  pub repository_id : Text
  pub kind : LessonKind
  pub statement : Text
  pub scope : AdviceScope
  pub conditions : Option (List Text)
  pub operation_signature : Option Text
  pub context_revision : Option Text
  pub evidence_refs : List Text
  pub contradiction_state : ContradictionState
  pub state : EntryState

pub record AdviceContext : Type 0 where
  pub repository_id : Text
  pub subproject_path : Option Text
  pub operation_signature : Text
  pub context_revision : Text
  pub conditions : List Text

pub data AdviceSelection : Type 0 where
  ready : List VerifiedAdviceEntry → AdviceSelection
  unavailable : AdviceSelection

abbrev pub is_verified : EntryState → Bool
is_verified verified = true
is_verified observed = false

abbrev pub is_clear : ContradictionState → Bool
is_clear clear = true
is_clear in_dispute = false

abbrev pub is_text : Option Text → Text → Bool
is_text none text = false
is_text (some own) text = own == text

abbrev pub same_option : Option Text → Option Text → Bool
same_option none none = true
same_option none (some _) = false
same_option (some _) none = false
same_option (some a) (some b) = a == b

abbrev pub is_general : LessonKind → Bool
is_general convention = true
is_general project_fact = true
is_general _ = false

-- The operation is the entry's, or the entry is for every operation.
unfoldable pub for_operation : VerifiedAdviceEntry → AdviceContext → Bool
for_operation entry context =
    is_text entry.operation_signature context.operation_signature
    || (not (is_some entry.operation_signature) && is_general entry.kind)

abbrev pub in_scope : AdviceScope → Option Text → Bool
in_scope whole_repository own = true
in_scope (subproject path) own = same_option path own

-- `context.conditions.includes`.
abbrev pub holds_in : AdviceContext → Text → Bool
holds_in context condition = any (◌==◌ condition) context.conditions

abbrev pub is_nonempty : List Text → Bool
is_nonempty [] = false
is_nonempty (_ ∷ _) = true

abbrev pub max_entries : ℕ
max_entries = 3

abbrev pub max_advice_bytes : ℕ
max_advice_bytes = 4096

-- `${candidateId}\0${revision}`.
abbrev pub identity_of : VerifiedAdviceEntry → Text
identity_of entry = entry.candidate_id ++ (0 ∷ entry.revision)

-- What one turn of the loop does with the entry.
pub data EntryTurn : Type 0 where
  late skip seen_before too_large take : EntryTurn

module _ (locale_lt : Text → Text → Bool) (contains_credential : Text → Bool)
    (byte_size : List VerifiedAdviceEntry → ℕ) where
  unfoldable pub is_eligible : AdviceContext → VerifiedAdviceEntry → Bool
  is_eligible context entry =
      is_verified entry.state
      && (is_clear entry.contradiction_state
          && (entry.repository_id == context.repository_id
              && (is_text entry.context_revision context.context_revision
                  && (for_operation entry context
                      && (in_scope entry.scope context.subproject_path
                          && (all (holds_in context) (or_empty entry.conditions)
                              && (is_nonempty entry.evidence_refs
                                  && not (contains_credential entry.statement))))))))

  -- By candidate, then by revision.
  abbrev pub advice_before : VerifiedAdviceEntry → VerifiedAdviceEntry → Bool
  advice_before left right =
      if locale_lt left.candidate_id right.candidate_id
      then true
      else if locale_lt right.candidate_id left.candidate_id
      then false
      else locale_lt left.revision right.revision

  unfoldable pub turn_of :
      (deadline now : ℕ)
      → AdviceContext
      → List VerifiedAdviceEntry
      → List Text
      → VerifiedAdviceEntry
      → EntryTurn
  turn_of deadline now context selected seen entry =
      if ltb deadline now
      then late
      else if not (is_eligible context entry)
      then skip
      else if any (◌==◌ (identity_of entry)) seen
      then seen_before
      else if ltb max_advice_bytes (byte_size (selected ++ (entry ∷ [])))
      then too_large
      else take

  module _ (deadline : ℕ) (now : ℕ → ℕ) (context : AdviceContext) where
    -- After the loop.
    abbrev pub after_loop : ℕ → List VerifiedAdviceEntry → AdviceSelection
    after_loop number selected = if ltb deadline (now number) then unavailable else ready selected

    -- The loop, from a reading of the clock on.
    unfoldable pub select_from :
        ℕ → List VerifiedAdviceEntry → List Text → List VerifiedAdviceEntry → AdviceSelection
    select_from number selected seen [] = after_loop number selected
    select_from number selected seen (entry ∷ entries) =
        elim (turn_of deadline (now number) context selected seen entry) [
          | late ↦ unavailable
          | skip ↦ select_from (suc number) selected seen entries
          | seen_before ↦ select_from (suc number) selected seen entries
          | too_large ↦ select_from (suc number) selected (identity_of entry ∷ seen) entries
          | take ↦
              let proposed = selected ++ (entry ∷ []) in
              elim (nat_eq (length proposed) max_entries) [
                | true ↦ after_loop (suc number) proposed
                | false ↦ select_from (suc number) proposed (identity_of entry ∷ seen) entries
              ]
        ]

    unfoldable pub select_local_advice : List VerifiedAdviceEntry → AdviceSelection
    select_local_advice entries = select_from 0 [] [] (sort advice_before entries)
