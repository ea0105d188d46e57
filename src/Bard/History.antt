-- ===== src/Bard/History.antt =====
-- plugins/bard/history.go: the history of the conversations, one JSON object on each line of a file.
-- JSON, the times of RFC 3339, the patterns of secrets and the limit of a line of `bufio.Scanner` are
-- parameters.
pub mod Reading
pub mod Purging
pub mod Saving
pub mod Sessions
pub mod Summaries
pub mod Grouping
pub mod Times
pub mod Tests
use yby_cli.Prelude.{
  ◌-◌, drop, ◌+◌, false, true, ◌++◌, not, map, length, none, some, ltb, Bool, [], eq_String, cat,
  ◌*◌, Option, filter, ◌==◌, ◌∷◌, if◌then◌else◌, ℕ, String, List,
}
use yby_cli.Prelude.Result.{Result, ok, err}

pub record HistoryEntry : Type 0 where
  pub role : String
  pub content : String
  pub timestamp : String
  pub session_id : String

-- `os.IsNotExist(err)`, or another error
pub data OpenError : Type 0 where
  not_exist : OpenError
  denied : String → OpenError

-- The file of the history and what the calls on it answer: its lines, whether the last of them ends
-- with a newline, and the errors of making its directory, of writing it anew and of opening it to
-- append. What is written to an open file is written whole.
pub record Disk : Type 0 where
  pub opened : Result OpenError (List String)
  pub terminated : Bool
  pub mkdir_error : Option String
  pub create_error : Option String
  pub append_error : Option String

abbrev pub max_history_entries : ℕ
max_history_entries = 20

-- 30 days, in nanoseconds
abbrev pub max_history_age : ℕ
max_history_age = 30 * 24 * 3600 * 1000000000

-- sanitizeContent: each pattern in turn
unfoldable pub sanitize_content : List (String → String) → String → String
sanitize_content [] content = content
sanitize_content (redact ∷ patterns) content = sanitize_content patterns (redact content)

unfoldable pub with_session : HistoryEntry → HistoryEntry
with_session e = if e.session_id == "" then record e { session_id = "legacy" } else e

-- entries[len(entries)-n:], where there are more
unfoldable pub last_entries : ℕ → List HistoryEntry → List HistoryEntry
last_entries n entries =
    if ltb n (length entries) then drop (length entries - n) entries else entries

-- a text and a newline at the end of the file, where the last line has no newline yet
unfoldable pub joined_last : List String → String → List String
joined_last [] line = line ∷ []
joined_last (last ∷ []) line = cat (last ∷ line ∷ []) ∷ []
joined_last (first ∷ second ∷ lines) line = first ∷ joined_last (second ∷ lines) line

-- a text and a newline at the end of the file, which is made where it is not there: the text is a line
-- of its own where the last line ends with a newline
abbrev pub appended :
    Result OpenError (List String) → Bool → String → Result OpenError (List String)
appended (ok lines) true line = ok (lines ++ line ∷ [])
appended (ok lines) false line = ok (joined_last lines line)
appended (err not_exist) whole line = ok (line ∷ [])
appended (err (denied text)) whole line = err (denied text)

module _ (encode : HistoryEntry → Result String String)
    (decode : String → Result String HistoryEntry) (parse_time : String → Option ℕ)
    (too_long : String → Bool) where
  -- scanner.Scan: the loop ends at a line that is too long, whose error is not asked for
  unfoldable pub scanned : List String → List String
  scanned [] = []
  scanned (line ∷ lines) = let rest = scanned lines in if too_long line then [] else line ∷ rest

  -- ts.Before(cutoff), where the time parses
  unfoldable pub too_old : ℕ → HistoryEntry → Bool
  too_old now e = elim (parse_time e.timestamp) [
    | none ↦ false
    | some ts ↦ ltb (ts + max_history_age) now
  ]

  -- the loop of loadAllEntriesRaw
  unfoldable pub entries_of : List String → List HistoryEntry
  unfolding with_session
  entries_of [] = []
  entries_of (line ∷ lines) =
      let rest = entries_of lines in
      if line == ""
      then rest
      else elim (decode line) [ err e ↦ rest | ok entry ↦ with_session entry ∷ rest ]

  -- the loop of loadAllEntries
  unfoldable pub recent_of : ℕ → List String → List HistoryEntry
  unfolding with_session too_old
  recent_of now [] = []
  recent_of now (line ∷ lines) =
      let rest = recent_of now lines in
      if line == "" then rest else elim (decode line) [
        | err e ↦ rest
        | ok entry ↦ if too_old now (with_session entry) then rest else with_session entry ∷ rest
      ]

  -- loadAllEntriesRaw
  unfoldable pub load_all_entries_raw : Disk → Result String (List HistoryEntry)
  unfolding scanned entries_of
  load_all_entries_raw disk = elim disk.opened [
    | ok lines ↦ ok (entries_of (scanned lines))
    | err e ↦ elim e [ not_exist ↦ ok [] | denied text ↦ err text ]
  ]

  -- loadAllEntries
  unfoldable pub load_all_entries : ℕ → Disk → Result String (List HistoryEntry)
  unfolding scanned recent_of
  load_all_entries now disk = elim disk.opened [
    | ok lines ↦ ok (recent_of now (scanned lines))
    | err e ↦ elim e [ not_exist ↦ ok [] | denied text ↦ err text ]
  ]

  -- loadHistory
  unfoldable pub load_history : ℕ → Disk → List HistoryEntry
  unfolding load_all_entries last_entries
  load_history now disk = elim (load_all_entries now disk) [
    | ok entries ↦ last_entries max_history_entries entries
    | err e ↦ []
  ]

  -- the loop that marshals what is kept
  unfoldable pub marshalled : List HistoryEntry → List String
  marshalled [] = []
  marshalled (e ∷ entries) =
      let rest = marshalled entries in elim (encode e) [ err text ↦ rest | ok line ↦ line ∷ rest ]

  -- PurgeOldEntries, past the reading
  unfoldable pub rewrite_entries : ℕ → List HistoryEntry → Disk → Option String × Disk
  unfolding marshalled too_old
  rewrite_entries now [] disk = (none, disk)
  rewrite_entries now (e ∷ entries) disk = elim disk.mkdir_error [
    | some text ↦ (some text, disk)
    | none ↦ elim disk.create_error [
      | some text ↦ (some text, disk)
      | none ↦ (
        none,
        record disk {
          opened = ok (marshalled (filter (λ x. not (too_old now x)) (e ∷ entries)));
          terminated = true;
        },
      )
    ]
  ]

  -- PurgeOldEntries, with its error
  unfoldable pub purge_old_entries : ℕ → Disk → Option String × Disk
  unfolding load_all_entries_raw rewrite_entries
  purge_old_entries now disk = elim (load_all_entries_raw disk) [
    | err e ↦ (some e, disk)
    | ok entries ↦ rewrite_entries now entries disk
  ]

  -- saveMessage; `stamp` is the time it writes
  unfoldable pub save_message :
      List (String → String) → String → String → String → String → Disk → Disk
  unfolding sanitize_content
  save_message patterns role content session_id stamp disk = elim disk.mkdir_error [
    | some text ↦ disk
    | none ↦ elim disk.append_error [
      | some text ↦ disk
      | none ↦
          elim (encode (record {
            role = role;
            content = sanitize_content patterns content;
            timestamp = stamp;
            session_id = session_id;
          })) [
            | err text ↦ disk
            | ok line ↦ record disk {
              opened = appended disk.opened disk.terminated line;
              terminated = true;
            }
          ]
    ]
  ]

-- clearHistory
unfoldable pub clear_history : Disk → Disk
clear_history disk = record disk { opened = err not_exist }

-- loadSessionHistory
unfoldable pub load_session_history : List HistoryEntry → String → ℕ → List HistoryEntry
unfolding last_entries
load_session_history entries session_id max_entries =
    last_entries max_entries (filter (λ e. e.session_id == session_id) entries)

-- formatHistoryContext
unfoldable pub entry_text : HistoryEntry → String
entry_text e =
    let label = (if e.role == "assistant" then "Assistente" else "Usuário") in
    cat ("\n**" ∷ label ∷ "** (" ∷ e.timestamp ∷ "):\n" ∷ e.content ∷ "\n" ∷ [])

unfoldable pub format_history_context : List HistoryEntry → String
unfolding entry_text
format_history_context [] = ""
format_history_context (e ∷ entries) =
    cat ("## Histórico de Conversas Anteriores\n" ∷ map entry_text (e ∷ entries))
