-- ===== src/Advice/Selection/Laws.antt =====
-- What a selection of advice guarantees.
use mathlib.Core.Path.{subst}
use agent_experience_agentic.Common.{
  ℕ, suc, ◌≤◌, ◌<◌, Text, ◌==◌, ==_refl, List, [], ◌∷◌, ◌++◌, Bool, true, false, any, length,
  length-append, nat_eq, sort, Memᴰ, ◌≡◌, ◌≢◌, ◌⊎◌, inl, inr, refl, arith, Bool-cases, All,
  All-mono, All-append, All-self, All-sort, IsDistinct,
}
use agent_experience_agentic.Advice.Selection.{
  VerifiedAdviceEntry, AdviceContext, ready, is_eligible, identity_of, advice_before, EntryTurn,
  late, skip, seen_before, too_large, take, turn_of, after_loop, select_from, select_local_advice,
  max_entries, max_advice_bytes,
}
use agent_experience_agentic.Advice.Selection.Eligible.{IsEligible, is_eligible-IsEligible}

abbrev pub identities : List VerifiedAdviceEntry → List Text
identities [] = []
identities (e ∷ es) = identity_of e ∷ identities es

All-identities-last {κ} :
    (P : Text → Type κ) (es : List VerifiedAdviceEntry) (e : VerifiedAdviceEntry)
    → All P (identities es)
    → P (identity_of e)
    → All P (identities (es ++ (e ∷ [])))
All-identities-last P [] e h p = (p, tt)
All-identities-last P (x ∷ es) e h p = (h.0, All-identities-last P es e h.1 p)

-- The identities of the entries are among those seen.
abbrev AreSeen : List Text → List VerifiedAdviceEntry → Type 0
AreSeen seen entries = All (λ e. any (◌==◌ (identity_of e)) seen ≡ true) entries

identities-IsDistinct :
    (es : List VerifiedAdviceEntry) (e : VerifiedAdviceEntry) (seen : List Text)
    → AreSeen seen es
    → any (◌==◌ (identity_of e)) seen ≡ false
    → IsDistinct (identities es)
    → IsDistinct (identities (es ++ (e ∷ [])))
identities-IsDistinct [] e seen known new d = (tt, tt)
identities-IsDistinct (x ∷ es) e seen known new d =
    let other : identity_of x ≢ identity_of e = λ same.
      let old = subst (λ i. any (◌==◌ i) seen ≡ true) same known.0 in
      absurd (ground (arith, old, new)) in
    (
      All-identities-last (λ y. identity_of x ≢ y) es e d.0 other,
      identities-IsDistinct es e seen known.1 new d.1,
    )

AreSeen-cons :
    (seen : List Text) (i : Text) (es : List VerifiedAdviceEntry)
    → AreSeen seen es
    → AreSeen (i ∷ seen) es
AreSeen-cons seen i es h = All-mono es (λ e k. ground (arith, k)) h

module _ (locale_lt : Text → Text → Bool) (contains_credential : Text → Bool)
    (byte_size : List VerifiedAdviceEntry → ℕ) (context : AdviceContext)
    (candidates : List VerifiedAdviceEntry) where
  -- Advice that may be given.
  pub record IsSelection (entries : List VerifiedAdviceEntry) : Type 0 where
    pub few : length entries ≤ max_entries
    pub eligible : All (IsEligible locale_lt contains_credential byte_size context) entries
    pub listed : All (λ e. Memᴰ e candidates) entries
    pub distinct : IsDistinct (identities entries)
    pub small : (entries ≡ []) ⊎ (byte_size entries ≤ max_advice_bytes)

  -- What the loop knows while it goes on.
  record IsSoFar (seen : List Text) (entries : List VerifiedAdviceEntry) : Type 0 where
    selection : IsSelection entries
    room : length entries < max_entries
    known : AreSeen seen entries

  turn_of-take :
      (deadline now : ℕ) (selected : List VerifiedAdviceEntry) (seen : List Text)
      (e : VerifiedAdviceEntry)
      → turn_of locale_lt contains_credential byte_size deadline now context selected seen e ≡ take
      → (is_eligible locale_lt contains_credential byte_size context e ≡ true)
        × (any (◌==◌ (identity_of e)) seen ≡ false)
        × (byte_size (selected ++ (e ∷ [])) ≤ max_advice_bytes)
  unfolding turn_of
  turn_of-take deadline now selected seen e h = (ground arith, ground arith, ground arith)

  IsSelection-last :
      (selected : List VerifiedAdviceEntry) (seen : List Text) (e : VerifiedAdviceEntry)
      → IsSoFar seen selected
      → Memᴰ e candidates
      → is_eligible locale_lt contains_credential byte_size context e ≡ true
      → any (◌==◌ (identity_of e)) seen ≡ false
      → byte_size (selected ++ (e ∷ [])) ≤ max_advice_bytes
      → IsSelection (selected ++ (e ∷ []))
  IsSelection-last selected seen e so_far listed eligible new small = record {
    few = let l = length-append selected (e ∷ []) in omega (arith, l, so_far.room);
    eligible =
        All-append _ selected (e ∷ []) so_far.selection.eligible
          (is_eligible-IsEligible locale_lt contains_credential byte_size context e eligible, tt);
    listed = All-append _ selected (e ∷ []) so_far.selection.listed (listed, tt);
    distinct = identities-IsDistinct selected e seen so_far.known new so_far.selection.distinct;
    small = inr small;
  }

  module _ (deadline : ℕ) (now : ℕ → ℕ) where
    after_loop-ready :
        (number : ℕ) (entries : List VerifiedAdviceEntry) {out : List VerifiedAdviceEntry}
        → IsSelection entries
        → after_loop locale_lt contains_credential byte_size deadline now context number entries
          ≡ ready out
        → IsSelection out
    after_loop-ready number entries {out} good h = subst IsSelection (ground (arith, h)) good

    select_from-IsSelection :
        (number : ℕ) (selected : List VerifiedAdviceEntry) (seen : List Text)
        (entries : List VerifiedAdviceEntry)
        → IsSoFar seen selected
        → All (λ e. Memᴰ e candidates) entries
        → {out : List VerifiedAdviceEntry}
        → select_from locale_lt contains_credential byte_size deadline now context number selected
            seen entries
          ≡ ready out
        → IsSelection out
    unfolding select_from
    select_from-IsSelection number selected seen [] so_far listed {out} h =
        after_loop-ready number selected so_far.selection h
    select_from-IsSelection number selected seen (e ∷ entries) so_far listed {out} h =
        by_turn
          (turn_of locale_lt contains_credential byte_size deadline (now number) context selected
            seen e)
          refl (λ s n d. select_from-IsSelection (suc number) s n entries d listed.1)
      where
        by_turn :
            (t : EntryTurn)
            → turn_of locale_lt contains_credential byte_size deadline
                (now number)
                context
                selected
                seen
                e
              ≡ t
            → ((s : List VerifiedAdviceEntry) (n : List Text)
                → IsSoFar n s
                → select_from locale_lt contains_credential byte_size deadline now context
                    (suc number)
                    s
                    n
                    entries
                  ≡ ready out
                → IsSelection out)
            → IsSelection out
        by_turn late x rest = absurd (ground (arith, x, h))
        by_turn skip x rest = rest selected seen so_far (ground (arith, x, h))
        by_turn seen_before x rest = rest selected seen so_far (ground (arith, x, h))
        by_turn too_large x rest =
            rest selected (identity_of e ∷ seen)
              (record {
                selection = so_far.selection;
                room = so_far.room;
                known = AreSeen-cons seen (identity_of e) selected so_far.known;
              })
              (ground (arith, x, h))
        by_turn take x rest =
            let (eligible, new, small) = turn_of-take deadline (now number) selected seen e x in
            let good = IsSelection-last selected seen e so_far listed.0 eligible new small in
            let proposed = selected ++ (e ∷ []) in
            elim (Bool-cases (nat_eq (length proposed) max_entries)) [
              | inl full ↦ after_loop-ready (suc number) proposed good (ground (arith, x, full, h))
              | inr more ↦
                  rest proposed (identity_of e ∷ seen)
                    (record {
                      selection = good;
                      room = let f = good.few in ground (arith, more, f);
                      known =
                          All-append _ selected (e ∷ [])
                            (AreSeen-cons seen (identity_of e) selected so_far.known)
                            (let r = ==_refl (identity_of e) in ground (arith, r), tt);
                    })
                    (ground (arith, x, more, h))
            ]

    -- The advice that selectLocalAdvice returns is at most three different entries of the
    -- candidates, at most 4,096 bytes of JSON if any, each verified, undisputed, of the repository
    -- and revision of the context, for its operation, scope and conditions, with evidence and
    -- without a credential.
    pub select_local_advice-IsSelection :
        {out : List VerifiedAdviceEntry}
        → select_local_advice locale_lt contains_credential byte_size deadline now context
            candidates
          ≡ ready out
        → IsSelection out
    unfolding select_local_advice
    select_local_advice-IsSelection {out} h =
        select_from-IsSelection 0 [] []
          (sort (advice_before locale_lt contains_credential byte_size) candidates)
          (record {
            selection = record {
              few = omega arith;
              eligible = tt;
              listed = tt;
              distinct = tt;
              small = inl refl;
            };
            room = omega arith;
            known = tt;
          })
          (All-sort _ (λ e. Memᴰ e candidates) candidates (All-self candidates)) h
