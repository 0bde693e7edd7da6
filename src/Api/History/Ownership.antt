-- ===== src/Api/History/Ownership.antt =====
-- What the endpoints show of other users' sessions.
use ocm_agent_v.Common.{
  Bool-cases, length, keep, length-take-le, All, All-take, ℕ, ◌≤◌, ◌<◌, arith, ap, Bool, ◌&&◌,
  String, ◌≡◌, refl, sym, ◌≢◌, ◌⊎◌, inl, inr, true, false, Option, none, some, List, [], ◌∷◌, map,
  ◌==◌, eq_iff,
}
use ocm_agent_v.Value.{Value}
use ocm_agent_v.Repo.Models.{Timestamp, Session, Db}
use ocm_agent_v.Repo.Sessions.{
  stands_before, insert_by_time, sort_by_time, matches_biz, later_than, matches_before, selects,
  list_by_user,
}
use ocm_agent_v.Api.History.{
  answers, serialize_session, no_cursor, cursor_text, read_cursor, list_sessions,
}

module _ (P : Session → Type 0) where
  All-insert_by_time :
      (s : Session) (rows : List Session) → P s → All P rows → All P (insert_by_time s rows)
  All-insert_by_time s [] p h = (p, tt)
  All-insert_by_time s (x ∷ rows) p (q, h) = elim (Bool-cases (stands_before x s)) [
    | inl e ↦ rw e (q, All-insert_by_time s rows p h)
    | inr e ↦ rw e (p, (q, h))
  ]

  All-sort_by_time : (rows : List Session) → All P rows → All P (sort_by_time rows)
  All-sort_by_time [] h = tt
  All-sort_by_time (s ∷ rows) (p, h) =
      All-insert_by_time s (sort_by_time rows) p (All-sort_by_time rows h)

-- The session is the account's, of the topic if one is given, and was last used before the cursor if
-- one is given.
abbrev pub IsWanted : String → Option String → Option Timestamp → Session → Type 0
IsWanted account biz cursor s =
    (s.w3_account ≡ account)
    × ((biz ≡ none) ⊎ (biz ≡ some s.biz_id))
    × ((cursor ≡ none)
        ⊎ ((t : Timestamp) × (used : Timestamp) × (cursor ≡ some t)
            × (s.last_message_at ≡ some used)
            × (used < t)))

matches_biz-topic :
    (biz : Option String) (s : Session)
    → matches_biz biz s ≡ true
    → (biz ≡ none) ⊎ (biz ≡ some s.biz_id)
matches_biz-topic none s h = inl refl
matches_biz-topic (some biz) s h = inr (ap some (sym ((eq_iff s.biz_id biz).0 h)))

later_than-used :
    (t : Timestamp) (o : Option Timestamp)
    → later_than t o ≡ true
    → (used : Timestamp) × (o ≡ some used) × (used < t)
later_than-used t none h = cc
later_than-used t (some u) h = (u, refl, ground arith)

matches_before-used :
    (before : Option Timestamp) (s : Session)
    → matches_before before s ≡ true
    → (before ≡ none)
      ⊎ ((t : Timestamp) × (used : Timestamp) × (before ≡ some t)
          × (s.last_message_at ≡ some used)
          × (used < t))
matches_before-used none s h = inl refl
matches_before-used (some t) s h =
    let (used, e, lt) = later_than-used t s.last_message_at h in inr (t, used, refl, e, lt)

both_true : (a b : Bool) → (a && b) ≡ true → (a ≡ true) × (b ≡ true)
both_true a b h = ground arith

selects-IsWanted :
    (account : String) (biz : Option String) (before : Option Timestamp) (s : Session)
    → selects account biz before s ≡ true
    → IsWanted account biz before s
selects-IsWanted account biz before s h =
    let (first, rest) = both_true (s.w3_account == account && matches_biz biz s) _ h in
    let (own, topic) = both_true (s.w3_account == account) _ first in
    (
      (eq_iff s.w3_account account).0 own,
      matches_biz-topic biz s topic,
      matches_before-used before s rest,
    )

keeps_selected :
    (account : String) (biz : Option String) (before : Option Timestamp) (rows : List Session)
    → All (IsWanted account biz before) (keep (selects account biz before) rows)
keeps_selected account biz before [] = tt
keeps_selected account biz before (s ∷ rows) = elim (Bool-cases (selects account biz before s)) [
  | inl e ↦ rw e (selects-IsWanted account biz before s e, keeps_selected account biz before rows)
  | inr e ↦ rw e (keeps_selected account biz before rows)
]

list_by_user-IsWanted :
    (account : String) (biz : Option String) (limit : ℕ) (before : Option Timestamp) (db : Db)
    → (length (list_by_user account biz limit before db) ≤ limit)
      × All (IsWanted account biz before) (list_by_user account biz limit before db)
unfolding list_by_user
list_by_user-IsWanted account biz limit before db =
    let rows = keep (selects account biz before) db.sessions in
    (
      length-take-le limit (sort_by_time rows),
      All-take _ limit (sort_by_time rows)
          (All-sort_by_time _ rows (keeps_selected account biz before db.sessions)),
    )

-- The cursor that a request gives: none, or the time that its text stands for.
abbrev pub IsCursor : (String → String ⊎ Timestamp) → Option String → Option Timestamp → Type 0
IsCursor from_iso before cursor =
    (((before ≡ none) ⊎ (before ≡ some "")) × (cursor ≡ none))
    ⊎ ((text : String) × (t : Timestamp) × (before ≡ some text)
        × (text ≢ "")
        × (from_iso text ≡ inr t)
        × (cursor ≡ some t))

absent_cursor :
    (before : Option String) → no_cursor before ≡ true → (before ≡ none) ⊎ (before ≡ some "")
absent_cursor none h = inl refl
absent_cursor (some s) h = inr (ap some ((eq_iff s "").0 h))

given_cursor :
    (before : Option String)
    → no_cursor before ≡ false
    → (before ≡ some (cursor_text before)) × (cursor_text before ≢ "")
given_cursor none h = cc
given_cursor (some s) h = (refl, λ e. cc (h, (eq_iff s "").1 e))

answers-injective : {A : Type 0} {a b : A} → answers a ≡ answers b → a ≡ b
answers-injective h = cc

-- A list of sessions that is answered holds at most `limit` of them, each the user's own, of the
-- topic that is asked for if there is one, and last used before the cursor if there is one.
pub list_sessions_owned :
    (iso : Timestamp → String) (from_iso : String → String ⊎ Timestamp) (biz : Option String)
    (limit : ℕ) (before : Option String) (w3 : String) (db : Db) (shown : List Value)
    → list_sessions iso from_iso biz limit before (some w3) (some db) ≡ answers shown
    → (rows : List Session) × (cursor : Option Timestamp) × IsCursor from_iso before cursor
      × (shown ≡ map (serialize_session iso) rows)
      × (length rows ≤ limit)
      × All (IsWanted w3 biz cursor) rows
unfolding list_sessions
list_sessions_owned iso from_iso biz limit before w3 db shown h = elim (Bool-cases (w3 == "")) [
  | inl nameless ↦ absurd (cc (rw nameless at h))
  | inr named ↦ elim (Bool-cases (no_cursor before)) [
    | inl e ↦
        let (few, own) = list_by_user-IsWanted w3 biz limit none db in
        (
          _,
          none,
          inl (absent_cursor before e, refl),
          sym (answers-injective (rw (named, e) at h)),
          few,
          own,
        )
    | inr e ↦ by_cursor e (from_iso (cursor_text before)) refl (rw (named, e) at h)
  ]
]
  where
    by_cursor :
        no_cursor before ≡ false
        → (r : String ⊎ Timestamp) → from_iso (cursor_text before) ≡ r
        → read_cursor
            (from_iso (cursor_text before))
            (λ c. answers (map (serialize_session iso) (list_by_user w3 biz limit c db)))
          ≡ answers shown
        → (rows : List Session) × (cursor : Option Timestamp) × IsCursor from_iso before cursor
          × (shown ≡ map (serialize_session iso) rows)
          × (length rows ≤ limit)
          × All (IsWanted w3 biz cursor) rows
    by_cursor off (inl e) k out = absurd (cc (rw k at out))
    by_cursor off (inr t) k out =
        let (few, own) = list_by_user-IsWanted w3 biz limit (some t) db in
        let (same, named) = given_cursor before off in
        (
          _,
          some t,
          inr (cursor_text before, t, same, named, k, refl),
          sym (answers-injective (rw k at out)),
          few,
          own,
        )
