-- ===== src/Ai/EmbeddingCache/Batch.antt =====
-- The two loops of `EmbedDocuments` together.
use yby_cli.Prelude.Result.{Result, ok, err}
use yby_cli.Prelude.Exec.{Exec, continue, ◌>>=◌}
use yby_cli.Ai.Provider.{ProviderError}
use yby_cli.Prelude.{
  subst, inr, inl, ◌⊎◌, zero, none, append_assoc, sym, ◌∙◌, length-append, ◌+◌, ap, refl, arith, [],
  map, suc, ◌∷◌, ◌++◌, some, length, List, ◌≡◌, Option, String, ℕ,
}
use yby_cli.Ai.EmbeddingCache.Documents.{
  complete, embed_documents, provider_failed, EmbedError, ask_inner, found_or_missed, Cached,
  cached_get, Looked, cached_put, set_result, look_up, fill,
}
use yby_cli.Ai.EmbeddingCache.Transparent.{get-Faithful, put-Faithful, Faithful}
use yby_cli.Ai.EmbeddingCache.{get}

module _ {V W : Type 0} (clock : W → ℕ × W) (hash_text : String → String) (f : String → V) where
  -- What the second loop makes of the results, with the embeddings that `f` gives.
  abbrev patch : List (ℕ × String) → List (Option V) → List (Option V)
  patch [] rs = rs
  patch ((i, text) ∷ misses) rs = patch misses (set_result i (f text) rs)

  set_result-append :
      (pre rs : List (Option V)) (r : Option V) (v : V) (i : ℕ)
      → i ≡ length pre
      → set_result i v (pre ++ r ∷ rs) ≡ pre ++ some v ∷ rs
  unfolding set_result
  set_result-append [] rs r v zero same = refl
  set_result-append [] rs r v (suc i) same = absurd (omega (arith, same))
  set_result-append (p ∷ pre) rs r v zero same = absurd (omega (arith, same))
  set_result-append (p ∷ pre) rs r v (suc i) same =
      ap (λ l. p ∷ l) (set_result-append pre rs r v i (omega (arith, same)))

  -- Texts with one hash have one embedding.
  abbrev pub Respects : Type 0
  Respects = (a b : String) → hash_text a ≡ hash_text b → f a ≡ f b

  fill-patch :
      (misses : List (ℕ × String)) (rs : List (Option V)) (s : Cached V W)
      → Respects
      → Faithful hash_text f s.0
      → let done = fill clock hash_text misses (map f (map (λ m. m.1) misses)) rs s in
        (done.0 ≡ ok (patch misses rs)) × Faithful hash_text f done.1.0
  unfolding fill cached_put
  fill-patch [] rs s respects good = (refl, good)
  fill-patch ((i, text) ∷ misses) rs (c, w) respects good =
      fill-patch misses (set_result i (f text) rs)
        (cached_put clock hash_text (hash_text text) (f text) (c, w)) respects
        (put-Faithful hash_text f (clock w).0 text c (λ other same. respects other text same) good)

  -- One round of the first loop.
  round-patch :
      (found : Option V) (i : ℕ) (text : String) (rest : Looked V) (pre goal : List (Option V))
      → i ≡ length pre
      → ((v : V) → found ≡ some v → v ≡ f text)
      → patch rest.misses ((pre ++ some (f text) ∷ []) ++ rest.results) ≡ goal
      → let looked = found_or_missed found i text rest in
        patch looked.misses (pre ++ looked.results) ≡ goal
  round-patch none i text rest pre goal same known later =
      ap (patch rest.misses) (
        set_result-append pre rest.results none (f text) i same
        ∙ sym (append_assoc pre (some (f text) ∷ []) rest.results))
      ∙ later
  round-patch (some v) i text rest pre goal same known later =
      ap (λ x. patch rest.misses (pre ++ some x ∷ rest.results)) (known v refl)
      ∙ ap (patch rest.misses) (sym (append_assoc pre (some (f text) ∷ []) rest.results))
      ∙ later

  look_up-patch :
      (texts : List String) (i : ℕ) (pre : List (Option V)) (s : Cached V W)
      → i ≡ length pre
      → Faithful hash_text f s.0
      → let (looked, t) = look_up clock hash_text i texts s in
        Faithful hash_text f t.0
        × (patch looked.misses (pre ++ looked.results) ≡ pre ++ map (λ text. some (f text)) texts)
  unfolding look_up cached_get
  look_up-patch [] i pre s same good = (good, refl)
  look_up-patch (text ∷ texts) i pre (c, w) same good =
      let (now, v) = clock w in
      let (kept, known) = get-Faithful hash_text f now text c good in
      let longer = pre ++ some (f text) ∷ [] in
      let (after, rest) =
        look_up-patch texts (i + 1) longer (cached_get clock hash_text (hash_text text) (c, w)).1
          (omega (arith, same, length-append pre (some (f text) ∷ []))) kept in
      (
        after,
        round-patch (get now (hash_text text) c).0 i text
            (look_up clock hash_text (i + 1) texts
              (cached_get clock hash_text (hash_text text) (c, w)).1).0
            pre (pre ++ some (f text) ∷ map (λ t. some (f t)) texts) same known
            (rest ∙ append_assoc pre (some (f text) ∷ []) (map (λ t. some (f t)) texts)),
      )

  module _ (inner : List String → Exec W ProviderError (List V)) where
    -- The provider gives each text its embedding, or fails.
    abbrev pub Embeds : Type 0
    Embeds =
        (texts : List String) (w : W)
        → ((inner texts w).0 ≡ ok (map f texts))
          ⊎ ((e : ProviderError) × ((inner texts w).0 ≡ err e))

    -- `EmbedDocuments` has answered: with the embedding of every text, in order, or with an error of
    -- the provider; what stays in the cache is right.
    abbrev pub Answered : List String → Result EmbedError (List (Option V)) × Cached V W → Type 0
    Answered texts done =
        Faithful hash_text f done.1.0
        × ((done.0 ≡ ok (map (λ text. some (f text)) texts))
            ⊎ ((e : ProviderError) × (misses : List String) × (w : W) × ((inner misses w).0 ≡ err e)
                × (done.0 ≡ err (provider_failed e))))

    ask_inner-cases :
        (texts : List String) (s : Cached V W)
        → Embeds
        → ((ask_inner clock hash_text inner texts s).1.0 ≡ s.0)
          × (((ask_inner clock hash_text inner texts s).0 ≡ ok (map f texts))
              ⊎ ((e : ProviderError) × (w : W) × ((inner texts w).0 ≡ err e)
                  × ((ask_inner clock hash_text inner texts s).0 ≡ err (provider_failed e))))
    unfolding ask_inner
    ask_inner-cases texts (c, w) embeds = elim (embeds texts w) [
      | inl e ↦ rw (e, ask_inner) (refl, inl refl)
      | inr (problem, e) ↦ (rw (e, ask_inner) refl, inr (problem, w, e, rw (e, ask_inner) refl))
    ]

    complete-Answered :
        (texts : List String) (rs : List (Option V)) (misses : List (ℕ × String)) (s : Cached V W)
        → Respects
        → Embeds
        → Faithful hash_text f s.0
        → patch misses rs ≡ map (λ text. some (f text)) texts
        → Answered texts
            (complete clock hash_text inner (record { results = rs; misses = misses }) s)
    unfolding complete
    complete-Answered texts rs [] s respects embeds good goal = (good, inl (ap ok goal))
    complete-Answered texts rs (miss ∷ misses) s respects embeds good goal =
        let missed = map (λ m. m.1) (miss ∷ misses) in
        let asked = ask_inner clock hash_text inner missed s in
        let (kept, answer) = ask_inner-cases missed s embeds in
        let still : Faithful hash_text f asked.1.0 =
          subst (λ c. Faithful hash_text f c) (sym kept) good in
        elim answer [
          | inl e ↦
              let (filled, after) = fill-patch (miss ∷ misses) rs asked.1 respects still in
              rw (e, complete, ◌>>=◌, continue) (after, inl (filled ∙ ap ok goal))
          | inr (problem, w, failed, e) ↦
              rw (e, complete, ◌>>=◌, continue) (still, inr (problem, missed, w, failed, refl))
        ]

    -- Where texts with one hash have one embedding, the provider gives each text its embedding or
    -- fails, and the cache holds embeddings of the texts of its keys, `EmbedDocuments` returns the
    -- embedding of every text in the order of the texts, or an error that the provider returned; it
    -- never runs out of the range of the provider's answer, and the cache stays right.
    pub embed_documents_is_transparent :
        (texts : List String) (s : Cached V W)
        → Respects
        → Embeds
        → Faithful hash_text f s.0
        → Answered texts (embed_documents clock hash_text inner texts s)
    unfolding embed_documents
    embed_documents_is_transparent [] s respects embeds good =
        let asked = ask_inner clock hash_text inner [] s in
        let (kept, answer) = ask_inner-cases [] s embeds in
        let still : Faithful hash_text f asked.1.0 =
          subst (λ c. Faithful hash_text f c) (sym kept) good in
        elim answer [
          | inl e ↦ rw (e, embed_documents, ◌>>=◌, continue) (still, inl refl)
          | inr (problem, w, failed, e) ↦
              rw (e, embed_documents, ◌>>=◌, continue) (still, inr (problem, [], w, failed, refl))
        ]
    embed_documents_is_transparent (text ∷ texts) s respects embeds good =
        let (looked, t) = look_up clock hash_text 0 (text ∷ texts) s in
        let (kept, goal) = look_up-patch (text ∷ texts) 0 [] s refl good in
        complete-Answered (text ∷ texts) looked.results looked.misses t respects embeds kept goal
