-- ===== src/Bard/History/Summaries.antt =====
-- The summary that the loop over the entries holds for a session.
use yby_cli.Prelude.{
  sym, eq_iff, Bool-cases, ◌∙◌, lookup-insert, inr, ◌++◌, refl, inl, insert, ap, contains,
  if◌then◌else◌, true, eq_String, some, none, Option-cases, [], false, ◌∷◌, lookup, ◌==◌, ◌≡◌,
  filter, List, Dict, ℕ, Option, String,
}
use yby_cli.Bard.History.{HistoryEntry}
use yby_cli.Bard.History.Sessions.{SessionSummary, new_session, count_entry, group_entries}

module _ (parse_time : String → Option ℕ) where
  -- The summary of some entries of a session.
  abbrev pub summary_of : SessionSummary → List HistoryEntry → SessionSummary
  summary_of s [] = s
  summary_of s (e ∷ entries) = summary_of ((count_entry parse_time) e s) entries

  abbrev pub of_session : String → List HistoryEntry → List HistoryEntry
  of_session sid entries = filter (λ e. e.session_id == sid) entries

  -- The sessions, in the order of their first messages.
  abbrev pub sessions_from : List String → List HistoryEntry → List String
  sessions_from seen [] = []
  sessions_from seen (e ∷ entries) =
      if contains e.session_id seen
      then sessions_from seen entries
      else e.session_id ∷ sessions_from (seen ++ e.session_id ∷ []) entries

  abbrev pub after : String → Option SessionSummary → List HistoryEntry → Option SessionSummary
  after sid none [] = none
  after sid none (e ∷ entries) = some (summary_of (new_session sid) (e ∷ entries))
  after sid (some s) entries = some (summary_of s entries)

  pub same_session :
      (sid : String) (e : HistoryEntry) (entries : List HistoryEntry)
      → e.session_id ≡ sid
      → after sid (some ((count_entry parse_time) e (new_session e.session_id))) entries
        ≡ after sid none (e ∷ entries)
  same_session sid e entries h =
      ap (λ x. some (summary_of ((count_entry parse_time) e (new_session x)) entries)) h

  pub group_new :
      (summaries : Dict String SessionSummary) (order : List String) (e : HistoryEntry)
      (entries : List HistoryEntry)
      → lookup e.session_id summaries ≡ none
      → (group_entries parse_time) summaries order (e ∷ entries)
        ≡ (group_entries parse_time)
            (insert e.session_id ((count_entry parse_time) e (new_session e.session_id)) summaries)
            (order ++ e.session_id ∷ [])
            entries
  unfolding group_entries
  group_new summaries order e entries n = rw (n, group_entries) refl

  pub group_old :
      (summaries : Dict String SessionSummary) (order : List String) (e : HistoryEntry)
      (entries : List HistoryEntry) (s : SessionSummary)
      → lookup e.session_id summaries ≡ some s
      → (group_entries parse_time) summaries order (e ∷ entries)
        ≡ (group_entries parse_time)
            (insert e.session_id ((count_entry parse_time) e s) summaries)
            order
            entries
  unfolding group_entries
  group_old summaries order e entries s n = rw (n, group_entries) refl

  pub of_same :
      (e : HistoryEntry) (entries : List HistoryEntry) (sid : String)
      → (e.session_id == sid) ≡ true
      → of_session sid (e ∷ entries) ≡ e ∷ of_session sid entries
  of_same e entries sid same = rw same refl

  pub of_other :
      (e : HistoryEntry) (entries : List HistoryEntry) (sid : String)
      → (e.session_id == sid) ≡ false
      → of_session sid (e ∷ entries) ≡ of_session sid entries
  of_other e entries sid other = rw other refl

  pub insert_same :
      (e : HistoryEntry) (s : SessionSummary) (summaries : Dict String SessionSummary)
      (sid : String)
      → (e.session_id == sid) ≡ true
      → lookup sid (insert e.session_id s summaries) ≡ some s
  insert_same e s summaries sid same = lookup-insert e.session_id sid s summaries ∙ rw same refl

  pub insert_other :
      (e : HistoryEntry) (s : SessionSummary) (summaries : Dict String SessionSummary)
      (sid : String)
      → (e.session_id == sid) ≡ false
      → lookup sid (insert e.session_id s summaries) ≡ lookup sid summaries
  insert_other e s summaries sid other = lookup-insert e.session_id sid s summaries ∙ rw other refl

  pub lookup-group_entries :
      (summaries : Dict String SessionSummary) (order : List String) (entries : List HistoryEntry)
      (sid : String)
      → lookup sid ((group_entries parse_time) summaries order entries).0
        ≡ after sid (lookup sid summaries) (of_session sid entries)
  unfolding group_entries
  lookup-group_entries summaries order [] sid = elim (Option-cases (lookup sid summaries)) [
    | inl n ↦ rw (n, after) refl
    | inr (s, n) ↦ rw (n, after) refl
  ]
  lookup-group_entries summaries order (e ∷ entries) sid =
      elim (Option-cases (lookup e.session_id summaries)) [
        | inl n ↦ elim (Bool-cases (e.session_id == sid)) [
          | inl same ↦
              ap (λ g. lookup sid g.0) (group_new summaries order e entries n)
              ∙ lookup-group_entries
                  (insert e.session_id ((count_entry parse_time) e (new_session e.session_id))
                    summaries)
                  (order ++ e.session_id ∷ []) entries sid
              ∙ ap (λ o. after sid o (of_session sid entries))
                  (insert_same e ((count_entry parse_time) e (new_session e.session_id)) summaries
                    sid same)
              ∙ same_session sid e (of_session sid entries) ((eq_iff e.session_id sid).0 same)
              ∙ ap (λ o. after sid o (e ∷ of_session sid entries))
                  (sym (sym (ap (λ x. lookup x summaries) ((eq_iff e.session_id sid).0 same)) ∙ n))
              ∙ ap (after sid (lookup sid summaries)) (sym (of_same e entries sid same))
          | inr other ↦
              ap (λ g. lookup sid g.0) (group_new summaries order e entries n)
              ∙ lookup-group_entries
                  (insert e.session_id ((count_entry parse_time) e (new_session e.session_id))
                    summaries)
                  (order ++ e.session_id ∷ []) entries sid
              ∙ ap (λ o. after sid o (of_session sid entries))
                  (insert_other e ((count_entry parse_time) e (new_session e.session_id)) summaries
                    sid other)
              ∙ ap (after sid (lookup sid summaries)) (sym (of_other e entries sid other))
        ]
        | inr (s, n) ↦ elim (Bool-cases (e.session_id == sid)) [
          | inl same ↦
              ap (λ g. lookup sid g.0) (group_old summaries order e entries s n)
              ∙ lookup-group_entries (insert e.session_id ((count_entry parse_time) e s) summaries)
                  order entries sid
              ∙ ap (λ o. after sid o (of_session sid entries))
                  (insert_same e ((count_entry parse_time) e s) summaries sid same)
              ∙ ap (λ o. after sid o (e ∷ of_session sid entries))
                  (sym (sym (ap (λ x. lookup x summaries) ((eq_iff e.session_id sid).0 same)) ∙ n))
              ∙ ap (after sid (lookup sid summaries)) (sym (of_same e entries sid same))
          | inr other ↦
              ap (λ g. lookup sid g.0) (group_old summaries order e entries s n)
              ∙ lookup-group_entries (insert e.session_id ((count_entry parse_time) e s) summaries)
                  order entries sid
              ∙ ap (λ o. after sid o (of_session sid entries))
                  (insert_other e ((count_entry parse_time) e s) summaries sid other)
              ∙ ap (after sid (lookup sid summaries)) (sym (of_other e entries sid other))
        ]
      ]
