-- ===== src/Bard/History/Sessions.antt =====
-- plugins/bard/history.go, `listSessions`: the sessions of a history, each with its count and its times.
-- A time is a number, and the zero time is 0.
use yby_cli.Prelude.{
  ◌++◌, insert, eq_String, none, ltb, ◌||◌, lookup, nat_eq, [], ◌∷◌, if◌then◌else◌, some, ◌+◌, Dict,
  List, ℕ, Option, String,
}
use yby_cli.Bard.History.{HistoryEntry}

pub record SessionSummary : Type 0 where
  pub session_id : String
  pub message_count : ℕ
  pub first_message : ℕ
  pub last_message : ℕ

abbrev pub new_session : String → SessionSummary
new_session sid = record {
  session_id = sid;
  message_count = 0;
  first_message = 0;
  last_message = 0;
}

abbrev pub with_time : Option ℕ → SessionSummary → SessionSummary
with_time none s = s
with_time (some ts) s = record s {
  first_message =
      if nat_eq s.first_message 0 || ltb ts s.first_message then ts else s.first_message;
  last_message = if ltb s.last_message ts then ts else s.last_message;
}

module _ (parse_time : String → Option ℕ) where
  -- one message more
  unfoldable pub count_entry : HistoryEntry → SessionSummary → SessionSummary
  count_entry e s =
      with_time (parse_time e.timestamp) (record s { message_count = s.message_count + 1 })

  -- the loop over the entries, with the map and the order of its keys
  unfoldable pub group_entries :
      Dict String SessionSummary
      → List String
      → List HistoryEntry
      → Dict String SessionSummary × List String
  unfolding count_entry
  group_entries summaries order [] = (summaries, order)
  group_entries summaries order (e ∷ entries) = elim (lookup e.session_id summaries) [
    | none ↦
        group_entries (insert e.session_id (count_entry e (new_session e.session_id)) summaries)
          (order ++ e.session_id ∷ []) entries
    | some s ↦ group_entries (insert e.session_id (count_entry e s) summaries) order entries
  ]

  -- the loop over the order; `none` for a key that is not there
  unfoldable pub in_order : Dict String SessionSummary → List String → Option (List SessionSummary)
  in_order summaries [] = some []
  in_order summaries (sid ∷ order) =
      let rest = in_order summaries order in
      elim (lookup sid summaries) [
        | none ↦ none
        | some s ↦ elim rest [ none ↦ none | some found ↦ some (s ∷ found) ]
      ]

  -- listSessions
  unfoldable pub list_sessions : List HistoryEntry → Option (List SessionSummary)
  unfolding group_entries in_order
  list_sessions entries = let grouped = group_entries [] [] entries in in_order grouped.0 grouped.1
