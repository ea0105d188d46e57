-- ===== src/Bard/History/Times.antt =====
-- The count and the times of the sessions that listSessions returns.
use yby_cli.Prelude.{
  eq_String, ◌==◌, sym, ap, ◌≤◌, map, false, ◌+◌, ◌∙◌, arith, ◌||◌, refl, [], nat_eq, ltb, All,
  if◌then◌else◌, some, length, ◌≡◌, ◌∷◌, ◌<◌, Option, List, ℕ, String,
}
use yby_cli.Prelude.{none, some, inl, inr, Option-cases, Bool-cases}
use yby_cli.Bard.History.{HistoryEntry}
use yby_cli.Bard.History.Sessions.{SessionSummary, new_session, count_entry, list_sessions}
use yby_cli.Bard.History.Summaries.{summary_of, of_session, sessions_from}
use yby_cli.Bard.History.Grouping.{list_sessions_folds}

-- The times that parse, of some messages.
abbrev pub times_of : (String → Option ℕ) → List HistoryEntry → List ℕ
times_of parse_time [] = []
times_of parse_time (e ∷ entries) =
    let rest = times_of parse_time entries in
    elim (parse_time e.timestamp) [ none ↦ rest | some t ↦ t ∷ rest ]

-- The latest of some times; 0 where there is none.
abbrev pub latest : List ℕ → ℕ
latest [] = 0
latest (t ∷ times) = let rest = latest times in if ltb rest t then t else rest

-- The earliest of some times; 0 where there is none.
abbrev pub earliest : List ℕ → ℕ
earliest [] = 0
earliest (t ∷ []) = t
earliest (t ∷ u ∷ times) = let rest = earliest (u ∷ times) in if ltb rest t then rest else t

-- What the summary of a session is meant to say of its messages.
abbrev pub summarized : (String → Option ℕ) → String → List HistoryEntry → SessionSummary
summarized parse_time sid entries = record {
  session_id = sid;
  message_count = length entries;
  first_message = earliest (times_of parse_time entries);
  last_message = latest (times_of parse_time entries);
}

-- No message has the zero time.
abbrev pub NoZeroTime : (String → Option ℕ) → List HistoryEntry → Type 0
NoZeroTime parse_time entries = All (λ e. (t : ℕ) → parse_time e.timestamp ≡ some t → 0 < t) entries

zero_plus : (n : ℕ) → 0 + n ≡ n
zero_plus n = omega arith

-- The earlier of a first time, 0 for none, and some times.
sooner : ℕ → List ℕ → ℕ
sooner a [] = a
sooner a (t ∷ times) = sooner (if nat_eq a 0 || ltb t a then t else a) times

later : ℕ → List ℕ → ℕ
later a [] = a
later a (t ∷ times) = later (if ltb a t then t else a) times

later-latest :
    (a : ℕ) (times : List ℕ) → later a times ≡ (if ltb (latest times) a then a else latest times)
unfolding later
later-latest a [] = ground arith
later-latest a (t ∷ times) = later-latest (if ltb a t then t else a) times ∙ ground arith

earliest-le : (t : ℕ) (times : List ℕ) → earliest (t ∷ times) ≤ t
earliest-le t [] = omega arith
earliest-le t (u ∷ times) = ground arith

earliest-cons :
    (a t : ℕ) (times : List ℕ)
    → earliest (a ∷ t ∷ times) ≡ (if ltb t a then earliest (t ∷ times) else earliest (a ∷ times))
earliest-cons a t [] = ground arith
earliest-cons a t (u ∷ times) = ground (arith, earliest-le t (u ∷ times))

sooner-earliest :
    (a : ℕ) (times : List ℕ)
    → 0 < a
    → All (λ t. 0 < t) times
    → sooner a times ≡ earliest (a ∷ times)
unfolding sooner
sooner-earliest a [] h all = refl
sooner-earliest a (t ∷ times) h all =
    let some_time : nat_eq a 0 ≡ false = ground arith in
    elim (Bool-cases (ltb t a)) [
      | inl k ↦
          rw (some_time, k)
            (sooner-earliest t times all.0 all.1 ∙ sym (earliest-cons a t times ∙ rw k refl))
      | inr k ↦
          rw (some_time, k)
            (sooner-earliest a times h all.1 ∙ sym (earliest-cons a t times ∙ rw k refl))
    ]

sooner-zero : (times : List ℕ) → All (λ t. 0 < t) times → sooner 0 times ≡ earliest times
unfolding sooner
sooner-zero [] all = refl
sooner-zero (t ∷ times) all = sooner-earliest t times all.0 all.1

later-zero : (times : List ℕ) → later 0 times ≡ latest times
later-zero times = later-latest 0 times ∙ ground arith

module _ (parse_time : String → Option ℕ) where
  times_of-All :
      (entries : List HistoryEntry)
      → NoZeroTime parse_time entries
      → All (λ t. 0 < t) (times_of parse_time entries)
  times_of-All [] positive = tt
  times_of-All (e ∷ entries) positive = elim (Option-cases (parse_time e.timestamp)) [
    | inl n ↦ rw (n, All, times_of) (times_of-All entries positive.1)
    | inr (t, n) ↦ rw (n, All, times_of) (positive.0 t n, times_of-All entries positive.1)
  ]

  of_session-NoZeroTime :
      (sid : String) (entries : List HistoryEntry)
      → NoZeroTime parse_time entries
      → NoZeroTime parse_time (of_session parse_time sid entries)
  of_session-NoZeroTime sid [] positive = tt
  of_session-NoZeroTime sid (e ∷ entries) positive = elim (Bool-cases (e.session_id == sid)) [
    | inl k ↦ rw k (positive.0, of_session-NoZeroTime sid entries positive.1)
    | inr k ↦ rw k (of_session-NoZeroTime sid entries positive.1)
  ]

  -- What the loop over the messages of a session makes of a summary.
  summary_of_lem :
      (s : SessionSummary) (entries : List HistoryEntry)
      → summary_of parse_time s entries ≡ record {
        session_id = s.session_id;
        message_count = s.message_count + length entries;
        first_message = sooner s.first_message (times_of parse_time entries);
        last_message = later s.last_message (times_of parse_time entries);
      }
  unfolding count_entry sooner later
  summary_of_lem s [] = ground arith
  summary_of_lem s (e ∷ entries) = elim (Option-cases (parse_time e.timestamp)) [
    | inl n ↦
        summary_of_lem (count_entry parse_time e s) entries
        ∙ rw (n, count_entry, times_of) (ground arith)
    | inr (t, n) ↦
        summary_of_lem (count_entry parse_time e s) entries
        ∙ rw (n, count_entry, times_of) (ground arith)
  ]

  summarized_lem :
      (sid : String) (entries : List HistoryEntry)
      → NoZeroTime parse_time entries
      → summary_of parse_time (new_session sid) entries ≡ summarized parse_time sid entries
  summarized_lem sid entries positive =
      summary_of_lem (new_session sid) entries
      ∙ ap
          (λ n. record {
            session_id = sid;
            message_count = n;
            first_message = sooner 0 (times_of parse_time entries);
            last_message = later 0 (times_of parse_time entries);
          })
          (zero_plus (length entries))
      ∙ ap
          (λ f. record {
            session_id = sid;
            message_count = length entries;
            first_message = f;
            last_message = later 0 (times_of parse_time entries);
          })
          (sooner-zero (times_of parse_time entries) (times_of-All entries positive))
      ∙ ap
          (λ l. record {
            session_id = sid;
            message_count = length entries;
            first_message = earliest (times_of parse_time entries);
            last_message = l;
          })
          (later-zero (times_of parse_time entries))

  summaries_lem :
      (entries : List HistoryEntry) (sids : List String)
      → NoZeroTime parse_time entries
      → map
          (λ sid. summary_of parse_time (new_session sid) (of_session parse_time sid entries))
          sids
        ≡ map (λ sid. summarized parse_time sid (of_session parse_time sid entries)) sids
  summaries_lem entries [] positive = refl
  summaries_lem entries (sid ∷ sids) positive =
      ap
        (λ x.
          x
          ∷ map (λ k. summary_of parse_time (new_session k) (of_session parse_time k entries)) sids)
        (summarized_lem sid (of_session parse_time sid entries)
          (of_session-NoZeroTime sid entries positive))
      ∙ ap (λ l. summarized parse_time sid (of_session parse_time sid entries) ∷ l)
          (summaries_lem entries sids positive)

  -- On every history, listSessions finds each session that it goes to look up, and returns one summary
  -- for each session of the history, in the order of the first messages, whatever other sessions
  -- stand between the messages of one. The summary counts the session's messages, and has the
  -- earliest and the latest of their times that parse, or 0, the zero time, where none does. The
  -- condition is that no message has the zero time, which the code takes for no time.
  pub list_sessions_groups :
      (entries : List HistoryEntry)
      → NoZeroTime parse_time entries
      → list_sessions parse_time entries
        ≡ some (
            map
              (λ sid. summarized parse_time sid (of_session parse_time sid entries))
              (sessions_from parse_time [] entries))
  list_sessions_groups entries positive =
      list_sessions_folds parse_time entries
      ∙ ap (λ l. some l) (summaries_lem entries (sessions_from parse_time [] entries) positive)
