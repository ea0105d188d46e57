-- ===== src/Ai/EmbeddingCache/Transparent.antt =====
-- `EmbedDocuments` returns what the wrapped provider would return.
use yby_cli.Prelude.{
  if◌then◌else◌, ap, ◌∙◌, subst, ◌==◌, ◌-◌, zero, ltb, eq_String, sym, Option-cases, inr, inl,
  length, contains, leb, [], suc, ◌∷◌, Bool-cases, some, ◌≡◌, ℕ, All, List, String,
}
use yby_cli.Ai.EmbeddingCache.{
  delete_item, back, remove_back, evict, remove_element, EmbeddingCache, CacheEntry, element, put,
  get,
}
use yby_cli.Ai.EmbeddingCache.Elements.{key-element, some_inj}

module _ {V : Type 0} (hash_text : String → String) (f : String → V) where
  -- The embedding is the one of every text with the hash of the entry.
  abbrev pub IsFaithful : CacheEntry V → Type 0
  IsFaithful entry = (text : String) → hash_text text ≡ entry.key → entry.embedding ≡ f text

  abbrev pub Faithful : EmbeddingCache V → Type 0
  Faithful c = All IsFaithful c.eviction

  remove_element-Faithful :
      (key : String) (es : List (CacheEntry V))
      → All IsFaithful es
      → All IsFaithful (remove_element key es)
  unfolding remove_element
  remove_element-Faithful key [] all_good = tt
  remove_element-Faithful key (e ∷ es) (good, rest) = elim (Bool-cases (key == e.key)) [
    | inl h ↦ rw (h, remove_element) (remove_element-Faithful key es rest)
    | inr h ↦ rw (h, remove_element) (good, remove_element-Faithful key es rest)
  ]

  remove_back-Faithful :
      (es : List (CacheEntry V)) → All IsFaithful es → All IsFaithful (remove_back es)
  unfolding remove_back
  remove_back-Faithful [] all_good = tt
  remove_back-Faithful (e ∷ []) all_good = tt
  remove_back-Faithful (e ∷ f ∷ es) (good, rest) = (good, remove_back-Faithful (f ∷ es) rest)

  element-Faithful :
      (key : String) (es : List (CacheEntry V)) (e : CacheEntry V)
      → All IsFaithful es
      → element key es ≡ some e
      → IsFaithful e
  unfolding element
  element-Faithful key [] e all_good h = absurd (cc)
  element-Faithful key (d ∷ es) e (good, rest) h = elim (Bool-cases (key == d.key)) [
    | inl t ↦
        subst IsFaithful (some_inj (sym (ap (λ b. if b then some d else element key es) t) ∙ h))
          good
    | inr t ↦
        element-Faithful key es e rest (sym (ap (λ b. if b then some d else element key es) t) ∙ h)
  ]

  evict-Faithful : (fuel : ℕ) (c : EmbeddingCache V) → Faithful c → Faithful (evict fuel c)
  unfolding evict
  evict-Faithful zero c good = good
  evict-Faithful (suc fuel) c good = elim (Bool-cases (leb c.max_size (length c.eviction))) [
    | inr h ↦ rw (h, evict) good
    | inl h ↦ elim (Option-cases (back c.eviction)) [
      | inl e ↦ rw (h, e, evict) good
      | inr (oldest, e) ↦
          rw (h, e, evict)
            (evict-Faithful fuel
              (record c {
                items = delete_item oldest.key c.items;
                eviction = remove_back c.eviction;
              })
              (remove_back-Faithful c.eviction good))
    ]
  ]

  -- `get` returns the embedding of the text.
  pub get-Faithful :
      (now : ℕ) (text : String) (c : EmbeddingCache V)
      → Faithful c
      → Faithful (get now (hash_text text) c).1
        × ((v : V) → (get now (hash_text text) c).0 ≡ some v → v ≡ f text)
  unfolding get
  get-Faithful now text c good =
      let key = hash_text text in
      elim (Bool-cases (contains key c.items)) [
        | inr h ↦ rw (h, get) (good, λ v e. absurd (cc))
        | inl h ↦ elim (Option-cases (element key c.eviction)) [
          | inl e ↦ rw (h, e, get) (good, λ v e. absurd (cc))
          | inr (entry, e) ↦
              let kept = element-Faithful key c.eviction entry good e in
              elim (Bool-cases (ltb c.ttl (now - entry.created_at))) [
                | inl old ↦
                    rw (h, e, old, get)
                      (remove_element-Faithful key c.eviction good, λ v e. absurd (cc))
                | inr fresh ↦
                    rw (h, e, fresh, get)
                      (
                        (kept, remove_element-Faithful key c.eviction good),
                        λ v same.
                            sym (some_inj same)
                            ∙ kept text (sym (key-element key c.eviction entry e)),
                      )
              ]
        ]
      ]

  pub put-Faithful :
      (now : ℕ) (text : String) (c : EmbeddingCache V)
      → ((other : String) → hash_text other ≡ hash_text text → f other ≡ f text)
      → Faithful c
      → Faithful (put now (hash_text text) (f text) c)
  unfolding put
  put-Faithful now text c apart good = elim (Bool-cases (contains (hash_text text) c.items)) [
    | inl h ↦
        rw (h, put)
          (
            λ other same. sym (apart other same),
            remove_element-Faithful (hash_text text) c.eviction good,
          )
    | inr h ↦
        rw (h, put)
          (λ other same. sym (apart other same), evict-Faithful (length c.eviction) c good)
  ]
