-- ===== src/Bard/History/Saving.antt =====
-- What is loaded when a message has been saved.
use yby_cli.Prelude.{
  filter-append, sym, ap, inr, ◌∙◌, inl, eq_String, refl, Bool-cases, not, [], ◌∷◌, filter, ◌++◌,
  none, true, false, ◌≡◌, List, ◌==◌, Bool, ℕ, Option, String,
}
use yby_cli.Prelude.Result.{Result, ok, Result-cases}
use yby_cli.Bard.History.{
  HistoryEntry, Disk, max_history_entries, sanitize_content, with_session, last_entries, scanned,
  too_old, entries_of, recent_of, load_all_entries, load_history, save_message,
}
use yby_cli.Bard.History.Reading.{Writes, old, recent_of-filter, load_ok}

module _ (encode : HistoryEntry → Result String String)
    (decode : String → Result String HistoryEntry) (parse_time : String → Option ℕ)
    (too_long : String → Bool) where
  entries_of-append :
      (xs ys : List String)
      → entries_of encode decode parse_time too_long (xs ++ ys)
        ≡ entries_of encode decode parse_time too_long xs
          ++ entries_of encode decode parse_time too_long ys
  unfolding entries_of
  entries_of-append [] ys = refl
  entries_of-append (line ∷ xs) ys = elim (Bool-cases (line == "")) [
    | inl h ↦ rw h (entries_of-append xs ys)
    | inr h ↦ elim (Result-cases (decode line)) [
      | inr (e, d) ↦ rw (h, d, entries_of) (entries_of-append xs ys)
      | inl (e, d) ↦ rw (h, d, entries_of) (ap (λ l. with_session e ∷ l) (entries_of-append xs ys))
    ]
  ]

  scanned-append :
      (xs ys : List String)
      → scanned encode decode parse_time too_long xs ≡ xs
      → scanned encode decode parse_time too_long (xs ++ ys)
        ≡ xs ++ scanned encode decode parse_time too_long ys
  unfolding scanned
  scanned-append [] ys h = refl
  scanned-append (line ∷ xs) ys h = elim (Bool-cases (too_long line)) [
    | inl k ↦ absurd (let bad : [] ≡ line ∷ xs = sym (rw (k, scanned) refl) ∙ h in cc)
    | inr k ↦
        let rest : line ∷ scanned encode decode parse_time too_long xs ≡ line ∷ xs =
          sym (rw (k, scanned) refl) ∙ h in
        rw k (ap (λ l. line ∷ l) (scanned-append xs ys (cc rest)))
  ]

  scanned_one :
      (line : String)
      → too_long line ≡ false
      → scanned encode decode parse_time too_long (line ∷ []) ≡ line ∷ []
  unfolding scanned
  scanned_one line short = rw (short, scanned) refl

  entries_of_one :
      (line : String) (e : HistoryEntry)
      → (line == "") ≡ false
      → decode line ≡ ok e
      → entries_of encode decode parse_time too_long (line ∷ []) ≡ with_session e ∷ []
  unfolding entries_of
  entries_of_one line e some_text reads = rw (some_text, reads, entries_of) refl

  filter_one :
      (now : ℕ) (e : HistoryEntry)
      → (old encode decode parse_time too_long) now e ≡ false
      → filter (λ x. not ((old encode decode parse_time too_long) now x)) (e ∷ []) ≡ e ∷ []
  filter_one now e fresh = rw fresh refl

  load_history_ok :
      (now : ℕ) (disk : Disk) (entries : List HistoryEntry)
      → load_all_entries encode decode parse_time too_long now disk ≡ ok entries
      → load_history encode decode parse_time too_long now disk
        ≡ last_entries max_history_entries entries
  unfolding load_history
  load_history_ok now disk entries h = simp (h, load_history)

  module _ (patterns : List (String → String)) (role content session_id stamp : String) where
    -- What saveMessage stores: the content as the patterns leave it.
    abbrev pub entry : HistoryEntry
    entry = record {
      role = role;
      content = sanitize_content patterns content;
      timestamp = stamp;
      session_id = session_id;
    }

    appends :
        (disk : Disk) (lines : List String) (line : String)
        → disk.opened ≡ ok lines
        → disk.mkdir_error ≡ none
        → disk.append_error ≡ none
        → disk.terminated ≡ true
        → encode entry ≡ ok line
        → save_message encode decode parse_time too_long patterns role content session_id stamp disk
          ≡ record disk { opened = ok (lines ++ line ∷ []); terminated = true }
    unfolding save_message
    appends disk lines line opened made opens whole wrote =
        simp (made, opens, wrote, opened, whole, save_message)

    -- A message that has been saved is the last that is loaded. Where the history can be read, its last
    -- line ends with a newline and no line is too long, its directory is made and the file appended
    -- to, and the JSON of the message is read as the message and is a line that is not too long, what
    -- is loaded after saveMessage is the last twenty of the entries that would have been loaded
    -- before and of the message, its content as the patterns in turn leave it; a message with no
    -- session is in "legacy". The time is one at which the message is not too old.
    pub saved_is_loaded :
        (now : ℕ) (disk : Disk) (lines : List String)
        → disk.opened ≡ ok lines
        → disk.mkdir_error ≡ none
        → disk.append_error ≡ none
        → disk.terminated ≡ true
        → scanned encode decode parse_time too_long lines ≡ lines
        → (Writes encode decode parse_time too_long) entry
        → too_old encode decode parse_time too_long now (with_session entry) ≡ false
        → load_history encode decode parse_time too_long now (
            save_message encode decode parse_time too_long patterns role content session_id stamp
              disk)
          ≡ last_entries max_history_entries
              (recent_of encode decode parse_time too_long now lines ++ with_session entry ∷ [])
    saved_is_loaded now disk lines opened made opens ends whole w fresh =
        let (line, wrote, reads, some_text, short) = w in
        let next : Disk = record disk { opened = ok (lines ++ line ∷ []); terminated = true } in
        let one : scanned encode decode parse_time too_long (line ∷ []) ≡ line ∷ [] =
          scanned_one line short in
        let read : entries_of encode decode parse_time too_long (line ∷ [])
            ≡ with_session entry ∷ [] =
          entries_of_one line entry some_text reads in
        let kept : filter (λ e. not ((old encode decode parse_time too_long) now e))
              (with_session entry ∷ [])
            ≡ with_session entry ∷ [] =
          filter_one now (with_session entry) fresh in
        let loads =
          (load_ok encode decode parse_time too_long) now next (lines ++ line ∷ []) refl
          ∙ ap
              (λ l. ok (
                filter (λ e. not ((old encode decode parse_time too_long) now e))
                  (entries_of encode decode parse_time too_long l)))
              (scanned-append lines (line ∷ []) whole ∙ ap (λ l. lines ++ l) one)
          ∙ ap (λ l. ok (filter (λ e. not ((old encode decode parse_time too_long) now e)) l))
              (entries_of-append lines (line ∷ [])
                ∙ ap (λ l. entries_of encode decode parse_time too_long lines ++ l) read)
          ∙ ap ok (
              filter-append (λ e. not ((old encode decode parse_time too_long) now e))
                (entries_of encode decode parse_time too_long lines) (with_session entry ∷ [])
              ∙ ap
                  (λ l.
                    filter (λ e. not ((old encode decode parse_time too_long) now e))
                      (entries_of encode decode parse_time too_long lines)
                    ++ l)
                  kept
              ∙ ap (λ l. l ++ with_session entry ∷ [])
                  (sym ((recent_of-filter encode decode parse_time too_long) now lines))) in
        ap (load_history encode decode parse_time too_long now)
          (appends disk lines line opened made opens ends wrote)
        ∙ load_history_ok now next _ loads
