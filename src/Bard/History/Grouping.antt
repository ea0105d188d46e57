-- ===== src/Bard/History/Grouping.antt =====
-- The sessions that are listed, against their messages.
use yby_cli.Prelude.{
  subst, true, append_assoc, eq_iff, contains-append, arith, false, Option-cases, refl, append-nil,
  equal_refl, sym, ◌||◌, inr, eq_String, ◌==◌, map, ◌++◌, ◌∙◌, inl, ap, some, [], insert,
  Bool-cases, contains, none, ◌∷◌, All, is_some, ◌≡◌, List, lookup, Dict, ℕ, Option, String,
}
use yby_cli.Bard.History.{HistoryEntry}
use yby_cli.Bard.History.Sessions.{
  SessionSummary, new_session, count_entry, group_entries, in_order, list_sessions,
}
use yby_cli.Bard.History.Summaries.{
  summary_of, of_session, sessions_from, after, group_new, group_old, of_same, of_other,
  insert_same, insert_other, lookup-group_entries,
}

module _ (parse_time : String → Option ℕ) where
  known :
      (e : HistoryEntry) (s : SessionSummary) (summaries : Dict String SessionSummary)
      (sid : String)
      → is_some (lookup sid (insert e.session_id s summaries))
        ≡ ((e.session_id == sid) || is_some (lookup sid summaries))
  known e s summaries sid = elim (Bool-cases (e.session_id == sid)) [
    | inl h ↦ ap is_some ((insert_same parse_time) e s summaries sid h) ∙ rw h refl
    | inr h ↦ ap is_some ((insert_other parse_time) e s summaries sid h) ∙ rw h refl
  ]

  group_order :
      (summaries : Dict String SessionSummary) (order : List String) (entries : List HistoryEntry)
      → ((sid : String) → is_some (lookup sid summaries) ≡ contains sid order)
      → ((group_entries parse_time) summaries order entries).1
        ≡ order ++ (sessions_from parse_time) order entries
  unfolding group_entries
  group_order summaries order [] same = sym (append-nil order)
  group_order summaries order (e ∷ entries) same =
      elim (Option-cases (lookup e.session_id summaries)) [
        | inl n ↦
            let fresh : contains e.session_id order ≡ false =
              sym (same e.session_id) ∙ ap is_some n in
            ap (λ g. g.1) ((group_new parse_time) summaries order e entries n)
            ∙ group_order
                (insert e.session_id ((count_entry parse_time) e (new_session e.session_id))
                  summaries)
                (order ++ e.session_id ∷ []) entries
                (λ sid.
                  known e ((count_entry parse_time) e (new_session e.session_id)) summaries sid
                  ∙ ground (
                    arith,
                    same sid,
                    contains-append sid order (e.session_id ∷ []),
                    eq_iff e.session_id sid,
                    eq_iff sid e.session_id,
                  ))
            ∙ append_assoc order (e.session_id ∷ [])
                ((sessions_from parse_time) (order ++ e.session_id ∷ []) entries)
            ∙ rw fresh refl
        | inr (s, n) ↦
            let seen : contains e.session_id order ≡ true =
              sym (same e.session_id) ∙ ap is_some n in
            ap (λ g. g.1) ((group_old parse_time) summaries order e entries s n)
            ∙ group_order (insert e.session_id ((count_entry parse_time) e s) summaries) order
                entries
                (λ sid.
                  known e ((count_entry parse_time) e s) summaries sid
                  ∙ elim (Bool-cases (e.session_id == sid)) [
                    | inl k ↦ rw k (
                        sym (
                          subst (λ x. contains x order ≡ true) ((eq_iff e.session_id sid).0 k)
                            seen))
                    | inr k ↦ rw k (same sid)
                  ])
            ∙ rw seen refl
      ]

  in_order-found :
      (summaries : Dict String SessionSummary) (f : String → SessionSummary) (order : List String)
      → All (λ sid. lookup sid summaries ≡ some (f sid)) order
      → (in_order parse_time) summaries order ≡ some (map f order)
  unfolding in_order
  in_order-found summaries f [] h = refl
  in_order-found summaries f (sid ∷ order) h =
      rw (h.0, in_order-found summaries f order h.1, in_order) refl

  abbrev HasMessage : List HistoryEntry → String → Type 0
  HasMessage entries sid =
      (e : HistoryEntry) × (rest : List HistoryEntry) × ((of_session parse_time) sid entries
        ≡ e ∷ rest)

  one_more :
      (e : HistoryEntry) (entries : List HistoryEntry) (sid : String)
      → HasMessage entries sid
      → HasMessage (e ∷ entries) sid
  one_more e entries sid (d, rest, h) = elim (Bool-cases (e.session_id == sid)) [
    | inl same ↦ (e, (of_session parse_time) sid entries, (of_same parse_time) e entries sid same)
    | inr other ↦ (d, rest, (of_other parse_time) e entries sid other ∙ h)
  ]

  more_messages :
      (e : HistoryEntry) (entries : List HistoryEntry) (sids : List String)
      → All (HasMessage entries) sids
      → All (HasMessage (e ∷ entries)) sids
  more_messages e entries [] h = tt
  more_messages e entries (sid ∷ sids) h =
      (one_more e entries sid h.0, more_messages e entries sids h.1)

  sessions_have_messages :
      (seen : List String) (entries : List HistoryEntry)
      → All (HasMessage entries) ((sessions_from parse_time) seen entries)
  sessions_have_messages seen [] = tt
  sessions_have_messages seen (e ∷ entries) = elim (Bool-cases (contains e.session_id seen)) [
    | inl h ↦ rw h (
        more_messages e entries ((sessions_from parse_time) seen entries)
          (sessions_have_messages seen entries))
    | inr h ↦ rw h (
      (
        e,
        (of_session parse_time) e.session_id entries,
        (of_same parse_time) e entries e.session_id (equal_refl e.session_id),
      ),
      more_messages e entries ((sessions_from parse_time) (seen ++ e.session_id ∷ []) entries)
          (sessions_have_messages (seen ++ e.session_id ∷ []) entries),
    )
  ]

  after_messages :
      (sid : String) (entries : List HistoryEntry)
      → HasMessage entries sid
      → (after parse_time) sid none ((of_session parse_time) sid entries)
        ≡ some ((summary_of parse_time) (new_session sid) ((of_session parse_time) sid entries))
  after_messages sid entries (e, rest, h) =
      ap ((after parse_time) sid none) h
      ∙ ap (λ l. some ((summary_of parse_time) (new_session sid) l)) (sym h)

  found_each :
      (entries : List HistoryEntry) (sids : List String)
      → All (HasMessage entries) sids
      → All
          (λ sid.
            lookup sid ((group_entries parse_time) [] [] entries).0
            ≡ some
                ((summary_of parse_time) (new_session sid) ((of_session parse_time) sid entries)))
          sids
  unfolding lookup
  found_each entries [] h = tt
  found_each entries (sid ∷ sids) h = (
    (lookup-group_entries parse_time) [] [] entries sid ∙ after_messages sid entries h.0,
    found_each entries sids h.1,
  )

  pub list_sessions_folds :
      (entries : List HistoryEntry)
      → (list_sessions parse_time) entries
        ≡ some (
            map
              (λ sid.
                (summary_of parse_time) (new_session sid) ((of_session parse_time) sid entries))
              ((sessions_from parse_time) [] entries))
  unfolding list_sessions lookup
  list_sessions_folds entries =
      ap ((in_order parse_time) ((group_entries parse_time) [] [] entries).0)
        (group_order [] [] entries (λ sid. refl))
      ∙ in_order-found ((group_entries parse_time) [] [] entries).0
          (λ sid. (summary_of parse_time) (new_session sid) ((of_session parse_time) sid entries))
          ((sessions_from parse_time) [] entries)
          (found_each entries ((sessions_from parse_time) [] entries)
            (sessions_have_messages [] entries))
