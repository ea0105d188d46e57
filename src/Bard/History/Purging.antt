-- ===== src/Bard/History/Purging.antt =====
-- What the history keeps when it is purged.
use yby_cli.Prelude.{
  ltb→lt, arith, lt→ltb, ◌+◌, ltb, sym, ◌∙◌, false≢true, [], ◌∷◌, Option-cases, ap, refl, not,
  filter, none, All, eq_String, true, inr, List, ◌≤◌, inl, Bool, ℕ, ◌==◌, Bool-cases, Option,
  String, ◌≡◌,
}
use yby_cli.Prelude.Result.{Result, ok, Result-cases}
use yby_cli.Bard.History.{
  HistoryEntry, Disk, max_history_age, with_session, scanned, too_old, entries_of,
  load_all_entries_raw, load_all_entries, marshalled, rewrite_entries, purge_old_entries,
}
use yby_cli.Bard.History.Reading.{Writes, old, load_ok}

with_session_idempotent : (e : HistoryEntry) → with_session (with_session e) ≡ with_session e
unfolding with_session
with_session_idempotent e = elim (Bool-cases (e.session_id == "")) [
  | inl h ↦ rw h refl
  | inr h ↦ rw h (rw h refl)
]

module _ (encode : HistoryEntry → Result String String)
    (decode : String → Result String HistoryEntry) (parse_time : String → Option ℕ)
    (too_long : String → Bool) where
  too_old_later :
      (now later : ℕ) (e : HistoryEntry)
      → now ≤ later
      → (old encode decode parse_time too_long) now e ≡ true
      → (old encode decode parse_time too_long) later e ≡ true
  unfolding too_old
  too_old_later now later e h k = elim (Option-cases (parse_time e.timestamp)) [
    | inl n ↦ absurd (false≢true (sym (rw (n, too_old) refl) ∙ k))
    | inr (ts, n) ↦
        let before : ltb (ts + max_history_age) now ≡ true = sym (rw (n, too_old) refl) ∙ k in
        rw (n, too_old)
          (lt→ltb (ts + max_history_age) later
            (omega (arith, h, ltb→lt (ts + max_history_age) now before)))
  ]

  entries_of-sessions :
      (lines : List String)
      → All (λ e. with_session e ≡ e) (entries_of encode decode parse_time too_long lines)
  unfolding entries_of
  entries_of-sessions [] = tt
  entries_of-sessions (line ∷ lines) = elim (Bool-cases (line == "")) [
    | inl h ↦ rw h (entries_of-sessions lines)
    | inr h ↦ elim (Result-cases (decode line)) [
      | inr (e, d) ↦ rw (h, d, entries_of) (entries_of-sessions lines)
      | inl (e, d) ↦ rw (h, d, entries_of) (with_session_idempotent e, entries_of-sessions lines)
    ]
  ]

  -- What is marshalled is read again.
  entries_of-marshalled :
      (entries : List HistoryEntry)
      → All (Writes encode decode parse_time too_long) entries
      → All (λ e. with_session e ≡ e) entries
      → entries_of encode decode parse_time too_long (
          scanned encode decode parse_time too_long
            (marshalled encode decode parse_time too_long entries))
        ≡ entries
  unfolding entries_of scanned marshalled
  entries_of-marshalled [] w s = refl
  entries_of-marshalled (e ∷ entries) w s =
      let (line, wrote, reads, some_text, short) = w.0 in
      rw (wrote, marshalled)
        (rw (short, scanned)
          (rw (some_text, reads, entries_of)
            (rw s.0 (ap (λ l. e ∷ l) (entries_of-marshalled entries w.1 s.1)))))

  filter-twice :
      (now later : ℕ) (entries : List HistoryEntry)
      → now ≤ later
      → filter
          (λ e. not ((old encode decode parse_time too_long) later e))
          (filter (λ e. not ((old encode decode parse_time too_long) now e)) entries)
        ≡ filter (λ e. not ((old encode decode parse_time too_long) later e)) entries
  filter-twice now later [] h = refl
  filter-twice now later (e ∷ entries) h =
      elim (Bool-cases ((old encode decode parse_time too_long) now e)) [
        | inl o ↦ rw (o, too_old_later now later e h o) (filter-twice now later entries h)
        | inr o ↦ rw o (elim (Bool-cases ((old encode decode parse_time too_long) later e)) [
          | inl l ↦ rw l (filter-twice now later entries h)
          | inr l ↦ rw l (ap (λ x. e ∷ x) (filter-twice now later entries h))
        ])
      ]

  filter-All :
      (P : HistoryEntry → Type 0) (p : HistoryEntry → Bool) (entries : List HistoryEntry)
      → All P entries
      → All P (filter p entries)
  filter-All P p [] h = tt
  filter-All P p (e ∷ entries) h = elim (Bool-cases (p e)) [
    | inl k ↦ rw k (h.0, filter-All P p entries h.1)
    | inr k ↦ rw k (filter-All P p entries h.1)
  ]

  rewritten :
      (now : ℕ) (disk : Disk) (e : HistoryEntry) (entries : List HistoryEntry)
      → disk.mkdir_error ≡ none
      → disk.create_error ≡ none
      → rewrite_entries encode decode parse_time too_long now (e ∷ entries) disk ≡ (
        none,
        record disk {
          opened = ok (
              marshalled encode decode parse_time too_long
                (filter (λ x. not ((old encode decode parse_time too_long) now x)) (e ∷ entries)));
          terminated = true;
        },
      )
  unfolding rewrite_entries
  rewritten now disk e entries made created = simp (made, created, rewrite_entries)

  purge_cases :
      (now later : ℕ) (disk : Disk) (lines : List String) (entries : List HistoryEntry)
      → disk.opened ≡ ok lines
      → disk.mkdir_error ≡ none
      → disk.create_error ≡ none
      → now ≤ later
      → entries_of encode decode parse_time too_long
          (scanned encode decode parse_time too_long lines)
        ≡ entries
      → All (Writes encode decode parse_time too_long) entries
      → All (λ e. with_session e ≡ e) entries
      → (let after = rewrite_entries encode decode parse_time too_long now entries disk in
          (after.0 ≡ none)
          × (load_all_entries encode decode parse_time too_long later after.1
              ≡ load_all_entries encode decode parse_time too_long later disk))
  unfolding rewrite_entries
  purge_cases now later disk lines [] opened made created h is w s = (refl, refl)
  purge_cases now later disk lines (e ∷ entries) opened made created h is w s =
      let kept = filter (λ x. not ((old encode decode parse_time too_long) now x)) (e ∷ entries) in
      let again =
        entries_of-marshalled kept
          (filter-All (Writes encode decode parse_time too_long)
            (λ x. not ((old encode decode parse_time too_long) now x)) (e ∷ entries) w)
          (filter-All (λ x. with_session x ≡ x)
            (λ x. not ((old encode decode parse_time too_long) now x)) (e ∷ entries) s) in
      let next : Disk = record disk {
        opened = ok (marshalled encode decode parse_time too_long kept);
        terminated = true;
      } in
      let step = rewritten now disk e entries made created in
      let recent : List HistoryEntry → Result String (List HistoryEntry) =
        λ l. ok (filter (λ x. not ((old encode decode parse_time too_long) later x)) l) in
      (
        ap (λ r. r.0) step,
        ap (λ r. load_all_entries encode decode parse_time too_long later r.1) step
            ∙ (load_ok encode decode parse_time too_long) later next
                (marshalled encode decode parse_time too_long kept) refl
            ∙ ap recent again
            ∙ ap ok (filter-twice now later (e ∷ entries) h)
            ∙ sym (
                (load_ok encode decode parse_time too_long) later disk lines opened ∙ ap recent is),
      )

  purge_ok :
      (now : ℕ) (disk : Disk) (lines : List String)
      → disk.opened ≡ ok lines
      → purge_old_entries encode decode parse_time too_long now disk
        ≡ rewrite_entries encode decode parse_time too_long now
            (entries_of encode decode parse_time too_long
              (scanned encode decode parse_time too_long lines))
            disk
  unfolding purge_old_entries load_all_entries_raw
  purge_ok now disk lines opened = simp (opened, purge_old_entries, load_all_entries_raw)

  -- Purging loses nothing that would be loaded: where the history can be read, its directory made and
  -- the file written anew, PurgeOldEntries ends without an error, and at the same or any later time
  -- the entries that are loaded are those that would have been loaded without it. The hypothesis on
  -- the entries is that the JSON of each is read as the entry, and is a line that is not too long.
  pub purge_loses_nothing :
      (now later : ℕ) (disk : Disk) (lines : List String)
      → disk.opened ≡ ok lines
      → disk.mkdir_error ≡ none
      → disk.create_error ≡ none
      → now ≤ later
      → All (Writes encode decode parse_time too_long) (
          entries_of encode decode parse_time too_long
            (scanned encode decode parse_time too_long lines))
      → ((purge_old_entries encode decode parse_time too_long now disk).0 ≡ none)
        × (load_all_entries encode decode parse_time too_long later
              (purge_old_entries encode decode parse_time too_long now disk).1
            ≡ load_all_entries encode decode parse_time too_long later disk)
  unfolding purge_old_entries load_all_entries_raw
  purge_loses_nothing now later disk lines opened made created h w =
      let c =
        purge_cases now later disk lines
          (entries_of encode decode parse_time too_long
            (scanned encode decode parse_time too_long lines))
          opened made created h refl w
          (entries_of-sessions (scanned encode decode parse_time too_long lines)) in
      let step = purge_ok now disk lines opened in
      (
        ap (λ r. r.0) step ∙ c.0,
        ap (λ r. load_all_entries encode decode parse_time too_long later r.1) step ∙ c.1,
      )
