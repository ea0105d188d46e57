-- ===== src/Bard/Tokens/Tests.antt =====
-- Runs of the token budget, and its theorems applied to one prompt.
use yby_cli.Prelude.{◌≤◌, ◌≡◌, refl, ◌⊎◌, [], arith, codes}
use yby_cli.Bard.Tokens.{Text, estimate_tokens, truncate_to_tokens, truncate_to_fit}
use yby_cli.Bard.Tokens.Laws.{total_tokens, total_tokens-truncate_to_fit-le}

abbrev prompt : Text
prompt = codes "be brief"

abbrev history : Text
history = codes "first then more"

abbrev rag : Text
rag = codes "notes"

cut : truncate_to_fit 6 prompt [] history rag ≡ (codes "hen more", rag)
unfolding truncate_to_fit estimate_tokens truncate_to_tokens
cut = refl

total_tokens-truncate_to_fit-le_example :
    (total_tokens prompt [] (truncate_to_fit 6 prompt [] history rag) ≤ 6)
    × ((truncate_to_fit 6 prompt [] history rag ≡ (history, rag))
        ⊎ (total_tokens prompt [] (truncate_to_fit 6 prompt [] history rag) ≡ 6))
unfolding estimate_tokens
total_tokens-truncate_to_fit-le_example =
    total_tokens-truncate_to_fit-le 6 prompt [] history rag (omega arith)
