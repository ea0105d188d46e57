-- ===== src/Ai/EmbeddingCache/Traces.antt =====
-- The embedding cache over every sequence of calls.
use yby_cli.Prelude.{
  ℕ, ◌-◌, ◌≤◌, ◌<◌, ◌≡◌, refl, ◌∙◌, String, List, [], ◌∷◌, none, some, length, arith, eq_String,
  equal_refl,
}
use yby_cli.Ai.EmbeddingCache.{
  CacheEntry, EmbeddingCache, new_embedding_cache, element, get, put, CacheCall, getting, putting,
  cache_step, cache_run,
}
use yby_cli.Ai.EmbeddingCache.Bounds.{IsValid, get-IsValid, put-IsValid}
use yby_cli.Ai.EmbeddingCache.Hits.{
  last_put, SameLimits, evict-SameLimits, get-SameLimits, put-SameLimits, run-Remembers,
  hit_element,
}

module _ {V : Type 0} where
  run-SameLimits :
      (c : EmbeddingCache V) (calls : List (CacheCall V)) → SameLimits (cache_run c calls) c
  unfolding cache_run cache_step
  run-SameLimits c [] = (refl, refl)
  run-SameLimits c (getting now key ∷ calls) =
      let (size, age) = run-SameLimits (get now key c).1 calls in
      let (same_size, same_age) = get-SameLimits now key c in (size ∙ same_size, age ∙ same_age)
  run-SameLimits c (putting now key v ∷ calls) =
      let (size, age) = run-SameLimits (put now key v c) calls in
      let (same_size, same_age) = put-SameLimits now key v c in (size ∙ same_size, age ∙ same_age)

  run-IsValid :
      (c : EmbeddingCache V) (calls : List (CacheCall V)) → IsValid c → IsValid (cache_run c calls)
  unfolding cache_run cache_step
  run-IsValid c [] valid = valid
  run-IsValid c (getting now key ∷ calls) valid =
      run-IsValid (get now key c).1 calls (get-IsValid now key c valid)
  run-IsValid c (putting now key v ∷ calls) valid =
      run-IsValid (put now key v c) calls (put-IsValid now key v c valid)

  new-IsValid :
      (max_size ttl : ℕ) → 0 < max_size → IsValid (new_embedding_cache {V = V} max_size ttl)
  unfolding new_embedding_cache
  new-IsValid max_size ttl sized = record {
    known = λ k h. absurd (cc);
    bounded = omega arith;
    sized = sized;
  }

  -- A cache made for at least one element holds at most as many elements as it was made for, after any
  -- calls of `get` and `put`.
  pub cache_stays_bounded :
      (max_size ttl : ℕ) (calls : List (CacheCall V))
      → 0 < max_size
      → length (cache_run (new_embedding_cache {V = V} max_size ttl) calls).eviction ≤ max_size
  unfolding new_embedding_cache
  cache_stays_bounded max_size ttl calls sized =
      let c = new_embedding_cache {V = V} max_size ttl in
      let valid = run-IsValid c calls (new-IsValid max_size ttl sized) in
      omega (arith, valid.bounded, (run-SameLimits c calls).0)

  -- After any calls, a `get` that hits returns what the last `put` under the key stored, and that
  -- `put` is not longer ago than the age limit.
  pub hit_is_last_put :
      (max_size ttl : ℕ) (calls : List (CacheCall V)) (now : ℕ) (key : String) (v : V)
      → (get now key (cache_run (new_embedding_cache max_size ttl) calls)).0 ≡ some v
      → (e : CacheEntry V) × (last_put key none calls ≡ some e)
        × (e.embedding ≡ v)
        × (now - e.created_at ≤ ttl)
  unfolding new_embedding_cache element
  hit_is_last_put max_size ttl calls now key v hit =
      let c = new_embedding_cache {V = V} max_size ttl in
      let (e, at, value, young) = hit_element now key (cache_run c calls) v hit in
      (
        e,
        run-Remembers calls (λ k. none) c (λ k e h. absurd (cc)) key e at,
        value,
        omega (arith, young, (run-SameLimits c calls).1),
      )

  -- Right after a `put`, and until the age limit, the cache answers with what was put.
  pub get-put :
      (now later : ℕ) (key : String) (v : V) (c : EmbeddingCache V)
      → later - now ≤ c.ttl
      → (get later key (put now key v c)).0 ≡ some v
  unfolding get put element
  get-put now later key v c young =
      ground (arith, equal_refl key, evict-SameLimits (length c.eviction) c)
