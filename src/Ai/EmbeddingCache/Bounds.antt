-- ===== src/Ai/EmbeddingCache/Bounds.antt =====
-- The embedding cache stays within its size.
use yby_cli.Prelude.{
  ℕ, zero, suc, ◌-◌, ◌≤◌, ◌<◌, ◌≡◌, refl, ap, String, true, contains, length, leb, ltb, arith, ◌==◌,
  eq_String, eq_iff, Bool-cases, Option-cases, inl, inr,
}
use yby_cli.Ai.EmbeddingCache.{
  EmbeddingCache, element, delete_item, back, remove_back, get, evict, put,
}
use yby_cli.Ai.EmbeddingCache.Elements.{
  has, contains-delete_item, has-remove_element, length-remove_element, length-remove_element-lt,
  back-none, key-element, length-remove_back, has-remove_back,
}

module _ {V : Type 0} where
  -- Each key of the map has its element, and there are not more elements than the size allows.
  pub record IsValid (c : EmbeddingCache V) : Type 0 where
    pub known : (k : String) → contains k c.items ≡ true → has k c.eviction ≡ true
    pub bounded : length c.eviction ≤ c.max_size
    pub sized : 0 < c.max_size

  -- After the loop there is room for one more element.
  evict_makes_room :
      (fuel : ℕ) (c : EmbeddingCache V)
      → length c.eviction ≤ fuel
      → 0 < c.max_size
      → ((evict fuel c).max_size ≡ c.max_size) × (length (evict fuel c).eviction < c.max_size)
  unfolding evict
  evict_makes_room zero c enough sized = (refl, omega arith)
  evict_makes_room (suc fuel) c enough sized =
      elim (Bool-cases (leb c.max_size (length c.eviction))) [
        | inr room ↦ rw (room, evict) (refl, ground arith)
        | inl full ↦ elim (Option-cases (back c.eviction)) [
          | inl empty ↦ absurd (ground (arith, full, sized, back-none c.eviction empty))
          | inr (oldest, e) ↦
              let smaller : EmbeddingCache V = record c {
                items = delete_item oldest.key c.items;
                eviction = remove_back c.eviction;
              } in
              rw (full, evict)
                (rw (e, evict)
                  (evict_makes_room fuel smaller (omega (arith, length-remove_back c.eviction))
                    sized))
        ]
      ]

  evict_known :
      (fuel : ℕ) (c : EmbeddingCache V)
      → ((k : String) → contains k c.items ≡ true → has k c.eviction ≡ true)
      → (k : String) → contains k (evict fuel c).items ≡ true
      → has k (evict fuel c).eviction ≡ true
  unfolding evict
  evict_known zero c known = known
  evict_known (suc fuel) c known = elim (Bool-cases (leb c.max_size (length c.eviction))) [
    | inr room ↦ rw (room, evict) known
    | inl full ↦ elim (Option-cases (back c.eviction)) [
      | inl empty ↦ rw (full, evict) (rw (empty, evict) known)
      | inr (oldest, e) ↦
          let smaller : EmbeddingCache V = record c {
            items = delete_item oldest.key c.items;
            eviction = remove_back c.eviction;
          } in
          rw (full, evict)
            (rw (e, evict)
              (evict_known fuel smaller (λ k h. ground (
                arith,
                h,
                contains-delete_item oldest.key k c.items,
                known k,
                has-remove_back k c.eviction oldest e,
                eq_iff k oldest.key,
                eq_iff oldest.key k,
              ))))
    ]
  ]

  pub get-IsValid :
      (now : ℕ) (key : String) (c : EmbeddingCache V) → IsValid c → IsValid (get now key c).1
  unfolding get
  get-IsValid now key c valid = elim (Bool-cases (contains key c.items)) [
    | inr absent ↦ rw (absent, get) valid
    | inl present ↦ elim (Option-cases (element key c.eviction)) [
      | inl gone ↦ rw (present, get) (rw (gone, get) valid)
      | inr (entry, e) ↦
          rw (present, get)
            (rw (e, get)
              (elim (Bool-cases (ltb c.ttl (now - entry.created_at))) [
                | inl old ↦
                    rw (old, get)
                      (record {
                        known = λ k h. ground (
                          arith,
                          h,
                          contains-delete_item key k c.items,
                          has-remove_element key k c.eviction,
                          valid.known k,
                        );
                        bounded =
                            omega (arith, length-remove_element key c.eviction, valid.bounded);
                        sized = valid.sized;
                      })
                | inr fresh ↦
                    rw (fresh, get)
                      (record {
                        known = λ k h. ground (
                          arith,
                          h,
                          has-remove_element key k c.eviction,
                          valid.known k,
                          ap (λ x. k == x) (key-element key c.eviction entry e),
                          eq_iff k key,
                          eq_iff key k,
                        );
                        bounded = omega (
                          arith,
                          length-remove_element-lt key c.eviction (valid.known key present),
                          valid.bounded,
                        );
                        sized = valid.sized;
                      })
              ]))
    ]
  ]

  pub put-IsValid :
      (now : ℕ) (key : String) (embedding : V) (c : EmbeddingCache V)
      → IsValid c
      → IsValid (put now key embedding c)
  unfolding put
  put-IsValid now key embedding c valid = elim (Bool-cases (contains key c.items)) [
    | inl present ↦
        rw (present, put)
          (record {
            known = λ k h. ground (
              arith,
              h,
              has-remove_element key k c.eviction,
              valid.known k,
              eq_iff k key,
              eq_iff key k,
            );
            bounded = omega (
              arith,
              length-remove_element-lt key c.eviction (valid.known key present),
              valid.bounded,
            );
            sized = valid.sized;
          })
    | inr absent ↦
        let room = evict_makes_room (length c.eviction) c (omega arith) valid.sized in
        rw (absent, put)
          (record {
            known = λ k h. ground (arith, h, evict_known (length c.eviction) c valid.known k);
            bounded = omega (arith, room.0, room.1);
            sized = omega (arith, room.0, valid.sized);
          })
  ]
