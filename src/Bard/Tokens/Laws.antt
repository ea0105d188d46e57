-- ===== src/Bard/Tokens/Laws.antt =====
-- What the token budget promises.
use yby_cli.Prelude.{
  ℕ, ◌+◌, ◌-◌, ◌*◌, ◌≤◌, ◌<◌, ◌≡◌, refl, ◌⊎◌, inl, inr, [], ◌∷◌, arith, leb, length, drop,
  length-drop, Bool-cases,
}
use yby_cli.Bard.Tokens.{Text, estimate_tokens, truncate_to_tokens, truncate_to_fit}

-- The text ends in the other one.
abbrev pub IsEndOf : Text → Text → Type 0
IsEndOf part text = (n : ℕ) × (drop n text ≡ part)

drop_all : (text : Text) → drop (length text) text ≡ []
drop_all [] = refl
drop_all (c ∷ text) = drop_all text

nothing-IsEndOf : (text : Text) → IsEndOf [] text
nothing-IsEndOf text = (length text, drop_all text)

truncate_to_tokens-IsEndOf :
    (text : Text) (max_tokens : ℕ) → IsEndOf (truncate_to_tokens text max_tokens) text
unfolding truncate_to_tokens
truncate_to_tokens-IsEndOf text max_tokens = elim (Bool-cases (leb max_tokens 0)) [
  | inl h ↦ rw h (nothing-IsEndOf text)
  | inr h ↦ rw h (elim (Bool-cases (leb (estimate_tokens text) max_tokens)) [
    | inl fits ↦ rw fits (0, refl)
    | inr over ↦ rw over (elim (Bool-cases (leb (length text) (max_tokens * 4))) [
      | inl short ↦ rw short (0, refl)
      | inr long ↦ rw long (length text - max_tokens * 4, refl)
    ])
  ])
]

-- A text over the limit is cut to exactly the limit.
estimate_tokens-truncate_to_tokens :
    (text : Text) (max_tokens : ℕ)
    → max_tokens < estimate_tokens text
    → estimate_tokens (truncate_to_tokens text max_tokens) ≡ max_tokens
unfolding estimate_tokens truncate_to_tokens
estimate_tokens-truncate_to_tokens text max_tokens over =
    ground (arith, length-drop (length text - max_tokens * 4) text)

estimate_tokens-nil : estimate_tokens [] ≡ 0
unfolding estimate_tokens
estimate_tokens-nil = refl

-- The tokens of the four parts of a prompt.
abbrev pub total_tokens : Text → Text → Text × Text → ℕ
total_tokens system_prompt user_input (history_ctx, rag_ctx) =
    estimate_tokens system_prompt
    + estimate_tokens user_input
    + (estimate_tokens history_ctx + estimate_tokens rag_ctx)

module _ (max_tokens : ℕ) (system_prompt user_input history_ctx rag_ctx : Text) where
  -- Where the prompt and the input fit the limit, the four parts that are sent together do; and either
  -- both contexts are kept whole, or the limit is used up exactly.
  pub total_tokens-truncate_to_fit-le :
      estimate_tokens system_prompt + estimate_tokens user_input ≤ max_tokens
      → let kept = truncate_to_fit max_tokens system_prompt user_input history_ctx rag_ctx in
        (total_tokens system_prompt user_input kept ≤ max_tokens)
        × ((kept ≡ (history_ctx, rag_ctx))
            ⊎ (total_tokens system_prompt user_input kept ≡ max_tokens))
  unfolding truncate_to_fit
  total_tokens-truncate_to_fit-le fits =
      let available = max_tokens - (estimate_tokens system_prompt + estimate_tokens user_input) in
      ground (
        arith,
        estimate_tokens-nil,
        estimate_tokens-truncate_to_tokens history_ctx (available - estimate_tokens rag_ctx),
        estimate_tokens-truncate_to_tokens rag_ctx available,
      )

  -- Retrieved context that fits beside the prompt and the input, which leave a part of the limit, is
  -- kept whole: the history is cut first.
  pub truncate_to_fit_rag :
      estimate_tokens system_prompt + estimate_tokens user_input < max_tokens
      → estimate_tokens system_prompt + estimate_tokens user_input + estimate_tokens rag_ctx
        ≤ max_tokens
      → (truncate_to_fit max_tokens system_prompt user_input history_ctx rag_ctx).1 ≡ rag_ctx
  unfolding truncate_to_fit
  truncate_to_fit_rag below fits = ground arith

  -- What is kept of a context is always an end of it: its latest part.
  pub truncate_to_fit-IsEndOf :
      let kept = truncate_to_fit max_tokens system_prompt user_input history_ctx rag_ctx in
      IsEndOf kept.0 history_ctx × IsEndOf kept.1 rag_ctx
  unfolding truncate_to_fit
  truncate_to_fit-IsEndOf =
      let fixed_tokens = estimate_tokens system_prompt + estimate_tokens user_input in
      let available = max_tokens - fixed_tokens in
      elim (Bool-cases (leb max_tokens fixed_tokens)) [
        | inl h ↦ rw h (nothing-IsEndOf history_ctx, nothing-IsEndOf rag_ctx)
        | inr h ↦
            rw h
              (elim (Bool-cases
                (leb (estimate_tokens history_ctx + estimate_tokens rag_ctx) available)) [
                  | inl both ↦ rw both ((0, refl), (0, refl))
                  | inr over ↦
                      rw over (elim (Bool-cases (leb (estimate_tokens rag_ctx) available)) [
                        | inl rag ↦ rw rag (truncate_to_tokens-IsEndOf history_ctx _, (0, refl))
                        | inr long ↦
                            rw long
                              (nothing-IsEndOf history_ctx, truncate_to_tokens-IsEndOf rag_ctx _)
                      ])
                ])
      ]
