-- ===== src/Bard/Tokens.antt =====
-- plugins/bard/tokens.go: the token budget of a prompt. A text is its bytes, as `len` and slices see
-- it. A limit below 0 acts as 0 does, so limits are natural numbers.
pub mod Laws
pub mod Tests
use yby_cli.Prelude.{ℕ, ◌+◌, ◌-◌, ◌*◌, ◌/◌, List, [], leb, length, drop, if◌then◌else◌}

abbrev pub Text : Type 0
Text = List ℕ

-- EstimateTokens
unfoldable pub estimate_tokens : Text → ℕ
estimate_tokens text = if leb (length text) 0 then 0 else (length text + 3) / 4

-- truncateToTokens: the end of the text is kept
unfoldable pub truncate_to_tokens : Text → ℕ → Text
truncate_to_tokens text max_tokens =
    let max_chars = max_tokens * 4 in
    if leb max_tokens 0
    then []
    else if leb (estimate_tokens text) max_tokens
    then text
    else if leb (length text) max_chars
    then text
    else drop (length text - max_chars) text

-- TruncateToFit, of the history and the retrieved context
unfoldable pub truncate_to_fit : ℕ → Text → Text → Text → Text → Text × Text
truncate_to_fit max_tokens system_prompt user_input history_ctx rag_ctx =
    let fixed_tokens = estimate_tokens system_prompt + estimate_tokens user_input in
    let available = max_tokens - fixed_tokens in
    let rag_tokens = estimate_tokens rag_ctx in
    if leb max_tokens fixed_tokens
    then ([], [])
    else if leb (estimate_tokens history_ctx + rag_tokens) available
    then (history_ctx, rag_ctx)
    else if leb rag_tokens available
    then (truncate_to_tokens history_ctx (available - rag_tokens), rag_ctx)
    else ([], truncate_to_tokens rag_ctx available)
