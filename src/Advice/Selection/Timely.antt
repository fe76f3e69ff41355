-- ===== src/Advice/Selection/Timely.antt =====
-- That a selection is made in time.
use agent_experience_agentic.Common.{
  ℕ, suc, ◌≤◌, Text, List, [], ◌∷◌, ◌++◌, Bool, sort, ◌≡◌, ◌≢◌, refl, arith,
}
use agent_experience_agentic.Advice.Selection.{
  VerifiedAdviceEntry, AdviceContext, unavailable, identity_of, advice_before, EntryTurn, late,
  skip, seen_before, too_large, take, turn_of, select_from, select_local_advice,
}

module _ (locale_lt : Text → Text → Bool) (contains_credential : Text → Bool)
    (byte_size : List VerifiedAdviceEntry → ℕ) (context : AdviceContext) (deadline : ℕ)
    (now : ℕ → ℕ) (timely : (k : ℕ) → now k ≤ deadline) where
  turn_of-timely :
      (number : ℕ) (selected : List VerifiedAdviceEntry) (seen : List Text)
      (e : VerifiedAdviceEntry)
      → turn_of locale_lt contains_credential byte_size deadline
          (now number)
          context
          selected
          seen
          e
        ≢ late
  unfolding turn_of
  turn_of-timely number selected seen e = let l = timely number in ground (arith, l)

  select_from-timely :
      (number : ℕ) (selected : List VerifiedAdviceEntry) (seen : List Text)
      (entries : List VerifiedAdviceEntry)
      → select_from locale_lt contains_credential byte_size deadline now context number selected
          seen entries
        ≢ unavailable
  unfolding select_from
  select_from-timely number selected seen [] = let l = timely number in ground (arith, l)
  select_from-timely number selected seen (e ∷ entries) =
      by_turn
        (turn_of locale_lt contains_credential byte_size deadline (now number) context selected seen
          e)
        refl (λ s n. select_from-timely (suc number) s n entries)
    where
      by_turn :
          (t : EntryTurn)
          → turn_of locale_lt contains_credential byte_size deadline
              (now number)
              context
              selected
              seen
              e
            ≡ t
          → ((s : List VerifiedAdviceEntry) (n : List Text)
              → select_from locale_lt contains_credential byte_size deadline now context
                  (suc number)
                  s
                  n
                  entries
                ≢ unavailable)
          → select_from locale_lt contains_credential byte_size deadline now context number selected
              seen
              (e ∷ entries)
            ≢ unavailable
      by_turn late x rest = absurd (turn_of-timely number selected seen e x)
      by_turn skip x rest = let r = rest selected seen in ground (arith, x, r)
      by_turn seen_before x rest = let r = rest selected seen in ground (arith, x, r)
      by_turn too_large x rest =
          let r = rest selected (identity_of e ∷ seen) in ground (arith, x, r)
      by_turn take x rest =
          let r = rest (selected ++ (e ∷ [])) (identity_of e ∷ seen) in
          let l = timely (suc number) in ground (arith, x, r, l)

  -- If no reading of the clock is after the deadline, selectLocalAdvice does not return
  -- unavailable.
  pub select_local_advice-timely :
      (entries : List VerifiedAdviceEntry)
      → select_local_advice locale_lt contains_credential byte_size deadline now context entries
        ≢ unavailable
  unfolding select_local_advice
  select_local_advice-timely entries =
      select_from-timely 0 [] []
        (sort (advice_before locale_lt contains_credential byte_size) entries)
