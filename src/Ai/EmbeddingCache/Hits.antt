-- ===== src/Ai/EmbeddingCache/Hits.antt =====
-- The embedding cache answers with what was put last.
use yby_cli.Prelude.{
  ℕ, zero, suc, ◌-◌, ◌≤◌, ◌≡◌, refl, sym, ap, ◌∙◌, String, Bool, true, false, List, [], ◌∷◌, Option,
  none, some, contains, length, leb, ltb, arith, ◌==◌, eq_String, eq_iff, if◌then◌else◌, Bool-cases,
  Option-cases, inl, inr,
}
use yby_cli.Ai.EmbeddingCache.{
  CacheEntry, EmbeddingCache, element, remove_element, back, get, evict, put, CacheCall, getting,
  putting, cache_step, cache_run,
}
use yby_cli.Ai.EmbeddingCache.Elements.{element-remove_element, element-remove_back, key-element}

then_case : {A : Type 0} (b : Bool) (x y z : A) → b ≡ true → (if b then x else y) ≡ z → x ≡ z
then_case b x y z hit h = sym (ap (λ b. if b then x else y) hit) ∙ h

else_case : {A : Type 0} (b : Bool) (x y z : A) → b ≡ false → (if b then x else y) ≡ z → y ≡ z
else_case b x y z miss h = sym (ap (λ b. if b then x else y) miss) ∙ h

flip : (j k : String) → (j == k) ≡ true → (k == j) ≡ true
flip j k h = (eq_iff k j).1 (sym ((eq_iff j k).0 h))

flip_not : (j k : String) → (j == k) ≡ false → (k == j) ≡ false
flip_not j k h = ground (arith, h, eq_iff k j, eq_iff j k)

module _ {V : Type 0} where
  -- The last `put` of a key in a sequence of calls, after what came before.
  abbrev pub last_put : String → Option (CacheEntry V) → List (CacheCall V) → Option (CacheEntry V)
  last_put k before [] = before
  last_put k before (getting now j ∷ calls) = last_put k before calls
  last_put k before (putting now j v ∷ calls) =
      last_put k
        (if j == k then some (record { key = j; embedding = v; created_at = now }) else before)
        calls

  -- Every element is what was put last under its key.
  abbrev pub Remembers : (String → Option (CacheEntry V)) → EmbeddingCache V → Type 0
  Remembers puts c =
      (k : String) (e : CacheEntry V) → element k c.eviction ≡ some e → puts k ≡ some e

  not_removed :
      (j k : String) (es : List (CacheEntry V)) (e : CacheEntry V)
      → element k (remove_element j es) ≡ some e
      → element k es ≡ some e
  not_removed j k es e h = elim (Bool-cases (j == k)) [
    | inl hit ↦ absurd (
        cc (
          then_case (j == k) none (element k es) (some e) hit
            (sym (element-remove_element j k es) ∙ h)))
    | inr miss ↦
        else_case (j == k) none (element k es) (some e) miss
          (sym (element-remove_element j k es) ∙ h)
  ]

  element-evict :
      (fuel : ℕ) (c : EmbeddingCache V) (k : String) (e : CacheEntry V)
      → element k (evict fuel c).eviction ≡ some e
      → element k c.eviction ≡ some e
  unfolding evict
  element-evict zero c k e = λ h. h
  element-evict (suc fuel) c k e = elim (Bool-cases (leb c.max_size (length c.eviction))) [
    | inr room ↦ rw (room, evict) (λ h. h)
    | inl full ↦ elim (Option-cases (back c.eviction)) [
      | inl empty ↦ rw (full, evict) (rw (empty, evict) (λ h. h))
      | inr (oldest, at) ↦
          rw (full, evict)
            (rw (at, evict) (λ h. element-remove_back k c.eviction e (element-evict fuel _ k e h)))
    ]
  ]

  -- Two caches with the same limits.
  abbrev pub SameLimits : EmbeddingCache V → EmbeddingCache V → Type 0
  SameLimits c d = (c.max_size ≡ d.max_size) × (c.ttl ≡ d.ttl)

  pub evict-SameLimits : (fuel : ℕ) (c : EmbeddingCache V) → SameLimits (evict fuel c) c
  unfolding evict
  evict-SameLimits zero c = (refl, refl)
  evict-SameLimits (suc fuel) c = elim (Bool-cases (leb c.max_size (length c.eviction))) [
    | inr room ↦ rw (room, evict) (refl, refl)
    | inl full ↦ elim (Option-cases (back c.eviction)) [
      | inl empty ↦ rw (full, evict) (rw (empty, evict) (refl, refl))
      | inr (oldest, e) ↦ rw (full, evict) (rw (e, evict) (evict-SameLimits fuel _))
    ]
  ]

  pub get-SameLimits :
      (now : ℕ) (key : String) (c : EmbeddingCache V) → SameLimits (get now key c).1 c
  unfolding get
  get-SameLimits now key c = elim (Bool-cases (contains key c.items)) [
    | inr absent ↦ rw (absent, get) (refl, refl)
    | inl present ↦ elim (Option-cases (element key c.eviction)) [
      | inl gone ↦ rw (present, get) (rw (gone, get) (refl, refl))
      | inr (entry, at) ↦
          rw (present, get)
            (rw (at, get)
              (elim (Bool-cases (ltb c.ttl (now - entry.created_at))) [
                | inl old ↦ rw (old, get) (refl, refl)
                | inr fresh ↦ rw (fresh, get) (refl, refl)
              ]))
    ]
  ]

  pub put-SameLimits :
      (now : ℕ) (key : String) (v : V) (c : EmbeddingCache V) → SameLimits (put now key v c) c
  unfolding put
  put-SameLimits now key v c = elim (Bool-cases (contains key c.items)) [
    | inl present ↦ rw (present, put) (refl, refl)
    | inr absent ↦ rw (absent, put) (evict-SameLimits (length c.eviction) c)
  ]

  get-Remembers :
      (puts : String → Option (CacheEntry V)) (now : ℕ) (key : String) (c : EmbeddingCache V)
      → Remembers puts c
      → Remembers puts (get now key c).1
  unfolding get element
  get-Remembers puts now key c known = elim (Bool-cases (contains key c.items)) [
    | inr absent ↦ rw (absent, get) known
    | inl present ↦ elim (Option-cases (element key c.eviction)) [
      | inl gone ↦ rw (present, get) (rw (gone, get) known)
      | inr (entry, at) ↦
          rw (present, get)
            (rw (at, get)
              (elim (Bool-cases (ltb c.ttl (now - entry.created_at))) [
                | inl old ↦ rw (old, get) (λ k e h. known k e (not_removed key k c.eviction e h))
                | inr fresh ↦
                    rw (fresh, get)
                      (λ k e h. elim (Bool-cases (k == entry.key)) [
                        | inl hit ↦
                            ap puts
                              ((eq_iff k entry.key).0 hit ∙ key-element key c.eviction entry at)
                            ∙ known key entry at
                            ∙ then_case (k == entry.key) (some entry)
                                (element k (remove_element key c.eviction)) (some e) hit h
                        | inr miss ↦ known k e (
                            not_removed key k c.eviction e (
                              else_case (k == entry.key) (some entry)
                                (element k (remove_element key c.eviction)) (some e) miss h))
                      ])
              ]))
    ]
  ]

  put-Remembers :
      (puts : String → Option (CacheEntry V)) (now : ℕ) (key : String) (v : V)
      (c : EmbeddingCache V)
      → Remembers puts c
      → Remembers
          (λ k.
            if key == k
            then some (record { key = key; embedding = v; created_at = now })
            else puts k)
          (put now key v c)
  unfolding put element
  put-Remembers puts now key v c known = elim (Bool-cases (contains key c.items)) [
    | inl present ↦
        rw (present, put)
          (λ k e h. elim (Bool-cases (key == k)) [
            | inl hit ↦ rw hit (
                then_case (k == key) _ (element k (remove_element key c.eviction)) (some e)
                  (flip key k hit) h)
            | inr miss ↦ rw miss (
                known k e (
                  not_removed key k c.eviction e (
                    else_case (k == key)
                      (some (record { key = key; embedding = v; created_at = now }))
                      (element k (remove_element key c.eviction)) (some e) (flip_not key k miss)
                      h)))
          ])
    | inr absent ↦
        rw (absent, put)
          (λ k e h. elim (Bool-cases (key == k)) [
            | inl hit ↦ rw hit (
                then_case (k == key) _ (element k (evict (length c.eviction) c).eviction) (some e)
                  (flip key k hit) h)
            | inr miss ↦ rw miss (
                known k e (
                  element-evict (length c.eviction) c k e (
                    else_case (k == key)
                      (some (record { key = key; embedding = v; created_at = now }))
                      (element k (evict (length c.eviction) c).eviction) (some e)
                      (flip_not key k miss) h)))
          ])
  ]

  pub run-Remembers :
      (calls : List (CacheCall V)) (puts : String → Option (CacheEntry V)) (c : EmbeddingCache V)
      → Remembers puts c
      → Remembers (λ k. last_put k (puts k) calls) (cache_run c calls)
  unfolding cache_run cache_step
  run-Remembers [] puts c known = known
  run-Remembers (getting now key ∷ calls) puts c known =
      run-Remembers calls puts (get now key c).1 (get-Remembers puts now key c known)
  run-Remembers (putting now key v ∷ calls) puts c known =
      run-Remembers calls _ (put now key v c) (put-Remembers puts now key v c known)

  -- A hit gives the element under the key, not older than the age limit.
  pub hit_element :
      (now : ℕ) (key : String) (c : EmbeddingCache V) (v : V)
      → (get now key c).0 ≡ some v
      → (e : CacheEntry V) × (element key c.eviction ≡ some e)
        × (e.embedding ≡ v)
        × (now - e.created_at ≤ c.ttl)
  unfolding get
  hit_element now key c v = elim (Bool-cases (contains key c.items)) [
    | inr absent ↦ rw (absent, get) (λ h. absurd (cc))
    | inl present ↦ elim (Option-cases (element key c.eviction)) [
      | inl gone ↦ rw (present, get) (rw (gone, get) (λ h. absurd (cc)))
      | inr (entry, at) ↦
          rw (present, get)
            (rw (at, get)
              (elim (Bool-cases (ltb c.ttl (now - entry.created_at))) [
                | inl old ↦ rw (old, get) (λ h. absurd (cc))
                | inr fresh ↦ rw (fresh, get) (λ h. (entry, refl, cc (h), ground arith))
              ]))
    ]
  ]
