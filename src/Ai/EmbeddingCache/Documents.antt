-- ===== src/Ai/EmbeddingCache/Documents.antt =====
-- pkg/ai/cached_provider.go, `EmbedDocuments`: the texts that the cache has are not sent to the
-- wrapped provider. The state is the cache beside a world that the clock and the provider change;
-- `hash_text` stands for SHA-256 in hexadecimal.
use yby_cli.Prelude.{none, zero, map, suc, some, [], ◌+◌, ◌∷◌, Option, List, String, ℕ}
use yby_cli.Prelude.Result.{ok, err}
use yby_cli.Prelude.Exec.{◌>>=◌, Exec}
use yby_cli.Ai.Provider.{ProviderError}
use yby_cli.Ai.EmbeddingCache.{EmbeddingCache, put, get}

-- `missEmbeddings[j]` panics where the provider returned fewer embeddings than texts.
pub data EmbedError : Type 0 where
  provider_failed : ProviderError → EmbedError
  index_out_of_range : EmbedError

abbrev pub Cached : Type 0 → Type 0 → Type 0
Cached V W = EmbeddingCache V × W

-- What the first loop leaves: `results`, with nothing where the cache had nothing, and the misses
-- with their indices.
pub record Looked (V : Type 0) : Type 0 where
  pub results : List (Option V)
  pub misses : List (ℕ × String)

module _ {V : Type 0} where
  abbrev pub found_or_missed : Option V → ℕ → String → Looked V → Looked V
  found_or_missed none i text rest = record {
    results = none ∷ rest.results;
    misses = (i, text) ∷ rest.misses;
  }
  found_or_missed (some v) i text rest = record {
    results = some v ∷ rest.results;
    misses = rest.misses;
  }

  -- results[i] = v
  unfoldable pub set_result : ℕ → V → List (Option V) → List (Option V)
  set_result i v [] = []
  set_result zero v (r ∷ rs) = some v ∷ rs
  set_result (suc i) v (r ∷ rs) = r ∷ set_result i v rs

module _ {V W : Type 0} (clock : W → ℕ × W) (hash_text : String → String) where
  -- the calls of `get` and `put`, at the time that the clock gives them
  unfoldable pub cached_get : String → Cached V W → Option V × Cached V W
  unfolding get
  cached_get key (c, w) =
      let (now, v) = clock w in let (found, after) = get now key c in (found, (after, v))

  unfoldable pub cached_put : String → V → Cached V W → Cached V W
  unfolding put
  cached_put key embedding (c, w) = let (now, v) = clock w in (put now key embedding c, v)

  unfoldable pub look_up : ℕ → List String → Cached V W → Looked V × Cached V W
  unfolding cached_get
  look_up i [] s = (record { results = []; misses = [] }, s)
  look_up i (text ∷ texts) s =
      let (found, t) = cached_get (hash_text text) s in
      let (rest, u) = look_up (i + 1) texts t in (found_or_missed found i text rest, u)

  -- The second loop, over the misses and their embeddings.
  unfoldable pub fill :
      List (ℕ × String) → List V → List (Option V) → Exec (Cached V W) EmbedError (List (Option V))
  unfolding set_result cached_put
  fill [] vs results s = (ok results, s)
  fill ((i, text) ∷ misses) [] results s = (err index_out_of_range, s)
  fill ((i, text) ∷ misses) (v ∷ vs) results s =
      fill misses vs (set_result i v results) (cached_put (hash_text text) v s)

  module _ (inner : List String → Exec W ProviderError (List V)) where
    -- the wrapped provider, which does not see the cache
    unfoldable pub ask_inner : List String → Exec (Cached V W) EmbedError (List V)
    ask_inner texts (c, w) = elim (inner texts w).0 [
      | ok vs ↦ (ok vs, (c, (inner texts w).1))
      | err e ↦ (err (provider_failed e), (c, (inner texts w).1))
    ]

    unfoldable pub complete : Looked V → Exec (Cached V W) EmbedError (List (Option V))
    unfolding ask_inner fill
    complete looked s = elim looked.misses [
      | [] ↦ (ok looked.results, s)
      | miss ∷ misses ↦
          (ask_inner (map (λ m. m.1) looked.misses) >>= λ vs. fill looked.misses vs looked.results)
            s
    ]

    -- (c *CachedEmbeddingProvider) EmbedDocuments
    unfoldable pub embed_documents : List String → Exec (Cached V W) EmbedError (List (Option V))
    unfolding look_up complete
    embed_documents [] s = (ask_inner [] >>= λ vs t. (ok (map some vs), t)) s
    embed_documents (text ∷ texts) s =
        let (looked, t) = look_up 0 (text ∷ texts) s in complete looked t
