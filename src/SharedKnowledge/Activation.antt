-- ===== src/SharedKnowledge/Activation.antt =====
-- src/shared-knowledge/git-activation.ts: the documents of a trusted commit and of the working
-- tree. What Git resolves and the documents that the two readers give are arguments.
use agent_experience_agentic.Common.{
  ℕ, Text, ◌==◌, List, ◌++◌, Bool, true, false, not, ◌&&◌, ◌||◌, Option, none, some, Result, ok,
  ◌>>◌, guard, all, any, map, filter, sort, length, leb, text_lt,
}
use agent_experience_agentic.Runtime.Override.{is_hex_digit, between}
use agent_experience_agentic.SharedKnowledge.Schema.{KnowledgeError, unresolved_commit}
use agent_experience_agentic.SharedKnowledge.Promotion.{SharedKnowledgeDocument}

pub data Provenance : Type 0 where
  trusted_ref : (commit : Option Text) → Provenance
  working_tree : Provenance

pub record ActivatedKnowledgeEntry : Type 0 where
  pub document : SharedKnowledgeDocument
  pub authoritative : Bool
  pub provenance : Provenance

pub record ActivatedKnowledge : Type 0 where
  pub trusted_commit : Option Text
  pub entries : List ActivatedKnowledgeEntry

abbrev pub as_local : SharedKnowledgeDocument → ActivatedKnowledgeEntry
as_local document = record { document = document; authoritative = false; provenance = working_tree }

abbrev pub as_trusted : Text → SharedKnowledgeDocument → ActivatedKnowledgeEntry
as_trusted commit document = record {
  document = document;
  authoritative = true;
  provenance = trusted_ref (some commit);
}

abbrev pub entry_before : ActivatedKnowledgeEntry → ActivatedKnowledgeEntry → Bool
entry_before left right = text_lt left.document.identity right.document.identity

-- `/^[a-f0-9]{40,64}$/i`.
abbrev is_any_hex_digit : ℕ → Bool
is_any_hex_digit c = is_hex_digit c || between 65 70 c

abbrev pub is_commit : Text → Bool
is_commit commit = leb 40 (length commit) && (leb (length commit) 64 && all is_any_hex_digit commit)

abbrev pub is_untrusted : List SharedKnowledgeDocument → SharedKnowledgeDocument → Bool
is_untrusted trusted document = not (any (λ t. t.identity == document.identity) trusted)

-- The commit that the trusted ref resolves to, if a ref is given.
unfoldable pub activate_git_knowledge :
    (resolved : Option Text) (trusted own : List SharedKnowledgeDocument)
    → Result KnowledgeError ActivatedKnowledge
activate_git_knowledge none trusted own =
    ok (record { trusted_commit = none; entries = map as_local own })
activate_git_knowledge (some commit) trusted own = do
  guard (is_commit commit) unresolved_commit
  ok (record {
    trusted_commit = some commit;
    entries =
        sort entry_before
          (map (as_trusted commit) trusted ++ map as_local (filter (is_untrusted trusted) own));
  })
