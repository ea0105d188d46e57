-- ===== src/Bard/History/Reading.antt =====
-- Reading the history.
use yby_cli.Prelude.{
  refl, [], inr, inl, Bool-cases, ◌∷◌, ap, eq_String, false, not, filter, ◌==◌, List, ◌≡◌, Bool, ℕ,
  Option, String,
}
use yby_cli.Prelude.Result.{Result, ok, Result-cases}
use yby_cli.Bard.History.{
  HistoryEntry, Disk, with_session, scanned, too_old, entries_of, recent_of, load_all_entries,
}

module _ (encode : HistoryEntry → Result String String)
    (decode : String → Result String HistoryEntry) (parse_time : String → Option ℕ)
    (too_long : String → Bool) where
  -- The entry is written as a line that is read as the entry, and is not too long.
  abbrev pub Writes : HistoryEntry → Type 0
  Writes e =
      (line : String) × (encode e ≡ ok line)
      × (decode line ≡ ok e)
      × ((line == "") ≡ false)
      × (too_long line ≡ false)

  abbrev pub old : ℕ → HistoryEntry → Bool
  old now e = too_old encode decode parse_time too_long now e

  -- Reading what is recent is reading all, less what is old.
  pub recent_of-filter :
      (now : ℕ) (lines : List String)
      → recent_of encode decode parse_time too_long now lines
        ≡ filter (λ e. not (old now e)) (entries_of encode decode parse_time too_long lines)
  unfolding recent_of entries_of
  recent_of-filter now [] = refl
  recent_of-filter now (line ∷ lines) = elim (Bool-cases (line == "")) [
    | inl h ↦ rw h (recent_of-filter now lines)
    | inr h ↦ elim (Result-cases (decode line)) [
      | inr (e, d) ↦ rw (h, d, recent_of, entries_of) (recent_of-filter now lines)
      | inl (e, d) ↦ elim (Bool-cases (old now (with_session e))) [
        | inl o ↦ rw (h, d, o, recent_of, entries_of) (recent_of-filter now lines)
        | inr o ↦
            rw (h, d, o, recent_of, entries_of)
              (ap (λ l. with_session e ∷ l) (recent_of-filter now lines))
      ]
    ]
  ]

  pub load_ok :
      (now : ℕ) (disk : Disk) (lines : List String)
      → disk.opened ≡ ok lines
      → load_all_entries encode decode parse_time too_long now disk
        ≡ ok (
            filter
              (λ e. not (old now e))
              (entries_of encode decode parse_time too_long
                (scanned encode decode parse_time too_long lines)))
  unfolding load_all_entries
  load_ok now disk lines opened =
      rw (opened, load_all_entries)
        (ap ok (recent_of-filter now (scanned encode decode parse_time too_long lines)))
