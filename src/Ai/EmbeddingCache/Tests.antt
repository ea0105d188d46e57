-- ===== src/Ai/EmbeddingCache/Tests.antt =====
-- Runs of the embedding cache, and its theorems applied to them.
use yby_cli.Prelude.{
  map, sym, inl, ◌+◌, String, ℕ, ◌-◌, ◌≤◌, ◌≡◌, refl, List, [], ◌∷◌, none, some, length, arith,
}
use yby_cli.Ai.EmbeddingCache.{
  remove_element, evict, CacheEntry, EmbeddingCache, new_embedding_cache, get, put, CacheCall,
  getting, putting, cache_step, cache_run,
}
use yby_cli.Ai.EmbeddingCache.Hits.{last_put}
use yby_cli.Ai.EmbeddingCache.Traces.{cache_stays_bounded, hit_is_last_put}
use yby_cli.Ai.EmbeddingCache.Documents.{embed_documents, Cached}
use yby_cli.Ai.EmbeddingCache.Batch.{embed_documents_is_transparent, Answered}
use yby_cli.Prelude.Exec.{Exec}
use yby_cli.Ai.EmbeddingCache.Transparent.{Faithful}
use yby_cli.Ai.Provider.{ProviderError}
use yby_cli.Prelude.Result.{ok}

-- three keys in a cache for two: "a" is used before "c" comes, so that "b" goes
abbrev calls : List (CacheCall ℕ)
calls = putting 0 "a" 1 ∷ putting 1 "b" 2 ∷ getting 2 "a" ∷ putting 3 "c" 3 ∷ []

abbrev full : EmbeddingCache ℕ
full = cache_run (new_embedding_cache 2 10) calls

evicts_least_recent : (get 4 "b" full).0 ≡ none
unfolding cache_run new_embedding_cache get cache_step
evicts_least_recent = refl

keeps_recent : (get 4 "a" full).0 ≡ some 1
unfolding cache_run new_embedding_cache get cache_step
keeps_recent = refl

expires : (get 11 "a" full).0 ≡ none
unfolding cache_run new_embedding_cache get cache_step
expires = refl

cache_stays_bounded_example : length full.eviction ≤ 2
cache_stays_bounded_example = cache_stays_bounded 2 10 calls (omega arith)

hit_is_last_put_example :
    (e : CacheEntry ℕ) × (last_put "a" none calls ≡ some e)
    × (e.embedding ≡ 1)
    × (4 - e.created_at ≤ 10)
unfolding cache_run new_embedding_cache get cache_step
hit_is_last_put_example = hit_is_last_put 2 10 calls 4 "a" 1 refl

-- an embedding is the text itself, and so is its hash
abbrev same_text : String → String
same_text s = s

abbrev ticking : ℕ → ℕ × ℕ
ticking n = (n, n + 1)

abbrev embedder : List String → Exec ℕ ProviderError (List String)
embedder texts n = (ok (map same_text texts), n + 100)

-- one text in the cache, one not
abbrev warm : Cached String ℕ
warm = (put 0 "a" "a" (new_embedding_cache 2 1000), 5)

warm-Faithful : Faithful same_text same_text warm.0
unfolding put evict new_embedding_cache remove_element
warm-Faithful = (λ text e. sym e, tt)

embed_documents_is_transparent_example :
    Answered ticking same_text same_text embedder
      ("a" ∷ "b" ∷ [])
      (embed_documents ticking same_text embedder ("a" ∷ "b" ∷ []) warm)
embed_documents_is_transparent_example =
    embed_documents_is_transparent ticking same_text same_text embedder ("a" ∷ "b" ∷ []) warm
      (λ a b e. e) (λ texts w. inl refl) warm-Faithful
