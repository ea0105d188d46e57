-- ===== src/Bard/History/Tests.antt =====
-- A history of one message.
use yby_cli.Prelude.{
  cat, true, insert, map, lookup, some, eq_String, refl, ◌==◌, ℕ, arith, Bool, none, ◌++◌, Option,
  if◌then◌else◌, false, ◌∷◌, [], List, All, ◌≡◌, String,
}
use yby_cli.Prelude.Result.{Result, ok, err}
use yby_cli.Bard.History.{
  HistoryEntry, Disk, max_history_entries, sanitize_content, with_session, last_entries, scanned,
  too_old, entries_of, recent_of, load_all_entries_raw, load_all_entries, load_history, marshalled,
  rewrite_entries, purge_old_entries, save_message, joined_last,
}
use yby_cli.Bard.History.Reading.{Writes}
use yby_cli.Bard.History.Purging.{purge_loses_nothing}
use yby_cli.Bard.History.Sessions.{count_entry, group_entries, in_order, list_sessions}
use yby_cli.Bard.History.Times.{list_sessions_groups, summarized, NoZeroTime}
use yby_cli.Bard.History.Summaries.{of_session, sessions_from}
use yby_cli.Bard.History.Saving.{saved_is_loaded}

abbrev hello : HistoryEntry
hello = record { role = "user"; content = "hello"; timestamp = "09:00"; session_id = "first" }

abbrev encode : HistoryEntry → Result String String
encode e = ok e.content

abbrev decode : String → Result String HistoryEntry
decode line = if line == "hello" then ok hello else err "not JSON"

abbrev parse_time : String → Option ℕ
parse_time stamp = some 5

abbrev too_long : String → Bool
too_long line = line == "endless"

abbrev disk_of : List String → Disk
disk_of lines = record {
  opened = ok lines;
  terminated = true;
  mkdir_error = none;
  create_error = none;
  append_error = none;
}

abbrev lines : List String
lines = "" ∷ "hello" ∷ "broken" ∷ []

loaded_one : load_history encode decode parse_time too_long 10 (disk_of lines) ≡ hello ∷ []
unfolding load_history load_all_entries scanned recent_of too_old with_session last_entries
loaded_one = refl

-- what follows a line that is too long is not loaded, and is gone when the history has been purged
lost_after_long_line :
    (purge_old_entries encode decode parse_time too_long 10
      (disk_of ("hello" ∷ "endless" ∷ "hello" ∷ []))).1
    ≡ disk_of ("hello" ∷ [])
unfolding purge_old_entries load_all_entries_raw scanned entries_of rewrite_entries marshalled
    too_old with_session
lost_after_long_line = refl

hello-Writes : Writes encode decode parse_time too_long hello
hello-Writes = ("hello", refl, refl, refl, refl)

lines-Writes :
    All (Writes encode decode parse_time too_long) (
      entries_of encode decode parse_time too_long
        (scanned encode decode parse_time too_long lines))
unfolding entries_of scanned with_session
lines-Writes = (hello-Writes, tt)

lines_whole : scanned encode decode parse_time too_long lines ≡ lines
unfolding scanned
lines_whole = refl

hello_fresh : too_old encode decode parse_time too_long 10 (with_session hello) ≡ false
unfolding too_old with_session
hello_fresh = refl

purge_loses_nothing_example :
    ((purge_old_entries encode decode parse_time too_long 10 (disk_of lines)).0 ≡ none)
    × (load_all_entries encode decode parse_time too_long 20
          (purge_old_entries encode decode parse_time too_long 10 (disk_of lines)).1
        ≡ load_all_entries encode decode parse_time too_long 20 (disk_of lines))
purge_loses_nothing_example =
    purge_loses_nothing encode decode parse_time too_long 10 20 (disk_of lines) lines refl refl refl
      (omega arith) lines-Writes

-- one pattern of secrets
abbrev masked : String → String
masked content = if content == "sk-1" then "hello" else content

saved_is_loaded_example :
    load_history encode decode parse_time too_long 10 (
      save_message encode decode parse_time too_long
        (masked ∷ [])
        "user"
        "sk-1"
        "first"
        "09:00"
        (disk_of lines))
    ≡ last_entries max_history_entries
        (recent_of encode decode parse_time too_long 10 lines ++ with_session hello ∷ [])
unfolding sanitize_content
saved_is_loaded_example =
    saved_is_loaded encode decode parse_time too_long (masked ∷ []) "user" "sk-1" "first" "09:00" 10
      (disk_of lines) lines refl refl refl refl lines_whole hello-Writes hello_fresh

-- a message after a line that has no newline is lost with that line
joined_lines :
    (save_message encode decode parse_time too_long [] "user" "hello" "first" "09:00"
      (record (disk_of ("hello" ∷ [])) { terminated = false })).opened
    ≡ ok ("hellohello" ∷ [])
unfolding save_message sanitize_content joined_last cat
joined_lines = refl

abbrev bye : HistoryEntry
bye = record { role = "user"; content = "bye"; timestamp = "10:00"; session_id = "second" }

abbrev minutes : String → Option ℕ
minutes stamp = if stamp == "09:00" then some 540 else some 600

two_sessions :
    list_sessions minutes (hello ∷ bye ∷ hello ∷ [])
    ≡ some (
        record { session_id = "first"; message_count = 2; first_message = 540; last_message = 540 }
        ∷ record {
          session_id = "second";
          message_count = 1;
          first_message = 600;
          last_message = 600;
        }
        ∷ [])
unfolding list_sessions group_entries in_order count_entry lookup insert
two_sessions = refl

minutes_positive : NoZeroTime minutes (hello ∷ bye ∷ hello ∷ [])
minutes_positive =
    (λ t h. ground (arith, h), (λ t h. ground (arith, h), (λ t h. ground (arith, h), tt)))

list_sessions_groups_example :
    list_sessions minutes (hello ∷ bye ∷ hello ∷ [])
    ≡ some (
        map
          (λ sid. summarized minutes sid (of_session minutes sid (hello ∷ bye ∷ hello ∷ [])))
          (sessions_from minutes [] (hello ∷ bye ∷ hello ∷ [])))
list_sessions_groups_example =
    list_sessions_groups minutes (hello ∷ bye ∷ hello ∷ []) minutes_positive
