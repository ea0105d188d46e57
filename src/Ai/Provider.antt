-- ===== src/Ai/Provider.antt =====
-- pkg/ai/provider.go and pkg/ai/errors.go: what every provider offers, and how it fails.
use yby_cli.Prelude.{ℕ, String, Bool, List}
use yby_cli.Prelude.Exec.{Exec}

-- An HTTP error of a provider. A negative `RetryAfter` acts everywhere as 0 does.
pub record ApiError : Type 0 where
  pub provider : String
  pub status_code : ℕ
  pub body : String
  pub retry_after : ℕ

pub data ProviderError : Type 0 where
  api_error : ApiError → ProviderError
  other : String → ProviderError

-- A provider over a world `W`, with embeddings in `V` and blueprints in `G`. What
-- `StreamCompletion` writes goes to a writer in the world.
pub record Provider (W V G : Type 0) : Type 0 where
  pub name : String
  pub is_available : W → Bool × W
  pub generate_governance : String → Exec W ProviderError G
  pub completion : String → String → Exec W ProviderError String
  pub stream_completion : String → String → Exec W ProviderError (Unit {0})
  pub embed_documents : List String → Exec W ProviderError (List V)
