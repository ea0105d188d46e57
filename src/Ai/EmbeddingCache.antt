-- ===== src/Ai/EmbeddingCache.antt =====
-- pkg/ai/cached_provider.go, `embeddingCache`: an LRU cache with an age limit. Each method holds the
-- mutex. The list has one element for each key of the map, and a pointer to an element is that key.
-- Times are nanoseconds.
pub mod Elements
pub mod Bounds
pub mod Hits
pub mod Traces
pub mod Documents
pub mod Transparent
pub mod Batch
pub mod Tests
use yby_cli.Prelude.{
  ℕ, zero, suc, ◌-◌, ◌≤◌, String, Bool, not, List, [], ◌∷◌, Option, none, some, contains, filter,
  length, leb, ltb, ◌==◌, eq_String, if◌then◌else◌,
}

pub record CacheEntry (V : Type 0) : Type 0 where
  pub key : String
  pub embedding : V
  pub created_at : ℕ

-- `items` has the keys of the map, `eviction` the elements from the latest used to the oldest.
pub record EmbeddingCache (V : Type 0) : Type 0 where
  pub max_size : ℕ
  pub ttl : ℕ
  pub items : List String
  pub eviction : List (CacheEntry V)

-- delete(c.items, key)
unfoldable pub delete_item : String → List String → List String
delete_item key [] = []
delete_item key (k ∷ ks) = let rest = delete_item key ks in if key == k then rest else k ∷ rest

module _ {V : Type 0} where
  unfoldable pub new_embedding_cache : ℕ → ℕ → EmbeddingCache V
  new_embedding_cache max_size ttl = record {
    max_size = max_size;
    ttl = ttl;
    items = [];
    eviction = [];
  }

  -- the element behind a pointer
  unfoldable pub element : String → List (CacheEntry V) → Option (CacheEntry V)
  element key [] = none
  element key (e ∷ es) = if key == e.key then some e else element key es

  -- c.eviction.Remove(elem)
  unfoldable pub remove_element : String → List (CacheEntry V) → List (CacheEntry V)
  remove_element key [] = []
  remove_element key (e ∷ es) =
      let rest = remove_element key es in if key == e.key then rest else e ∷ rest

  -- c.eviction.Back(), and the list without it
  unfoldable pub back : List (CacheEntry V) → Option (CacheEntry V)
  back [] = none
  back (e ∷ []) = some e
  back (e ∷ f ∷ es) = back (f ∷ es)

  unfoldable pub remove_back : List (CacheEntry V) → List (CacheEntry V)
  remove_back [] = []
  remove_back (e ∷ []) = []
  remove_back (e ∷ f ∷ es) = e ∷ remove_back (f ∷ es)

  -- (c *embeddingCache) get
  unfoldable pub get : ℕ → String → EmbeddingCache V → Option V × EmbeddingCache V
  unfolding element remove_element delete_item
  get now key c = if not (contains key c.items) then (none, c) else elim (element key c.eviction) [
    | none ↦ (none, c)
    | some entry ↦
        if ltb c.ttl (now - entry.created_at)
        then (
          none,
          record c { items = delete_item key c.items; eviction = remove_element key c.eviction },
        )
        else (some entry.embedding, record c { eviction = entry ∷ remove_element key c.eviction })
  ]

  -- The eviction loop of `put`; each round takes an element off, so that the length is fuel enough.
  unfoldable pub evict : ℕ → EmbeddingCache V → EmbeddingCache V
  unfolding back remove_back delete_item
  evict zero c = c
  evict (suc fuel) c =
      if leb c.max_size (length c.eviction)
      then elim (back c.eviction) [
        | none ↦ c
        | some oldest ↦
            evict fuel (record c {
              items = delete_item oldest.key c.items;
              eviction = remove_back c.eviction;
            })
      ]
      else c

  -- (c *embeddingCache) put
  unfoldable pub put : ℕ → String → V → EmbeddingCache V → EmbeddingCache V
  unfolding evict remove_element
  put now key embedding c =
      let entry : CacheEntry V = record { key = key; embedding = embedding; created_at = now } in
      let evicted = evict (length c.eviction) c in
      if contains key c.items
      then record c { eviction = entry ∷ remove_element key c.eviction }
      else record evicted { items = key ∷ evicted.items; eviction = entry ∷ evicted.eviction }

-- A call of a method, with the time that it reads.
pub data CacheCall (V : Type 0) : Type 0 where
  getting : ℕ → String → CacheCall V
  putting : ℕ → String → V → CacheCall V

module _ {V : Type 0} where
  unfoldable pub cache_step : EmbeddingCache V → CacheCall V → EmbeddingCache V
  unfolding get put
  cache_step c (getting now key) = (get now key c).1
  cache_step c (putting now key embedding) = put now key embedding c

  unfoldable pub cache_run : EmbeddingCache V → List (CacheCall V) → EmbeddingCache V
  cache_run c [] = c
  cache_run c (call ∷ calls) = cache_run (cache_step c call) calls
