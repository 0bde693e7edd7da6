-- ===== src/Repo/Messages/Append.antt =====
-- What `append` stores, and what `list_recent` shows of it.
use ocm_agent_v.Common.{
  ltb, Bool-cases, take, keep, keep-append, All, ok, ℕ, suc, ◌+◌, ◌≤◌, ◌<◌, String, ◌≡◌, refl, ap,
  ◌≢◌, inl, inr, Bool, true, false, ◌||◌, List, [], ◌∷◌, ◌++◌, append-nil, arith, ◌==◌, eq_iff,
  eq_refl,
}
use ocm_agent_v.Repo.Models.{Message, Db}
use ocm_agent_v.Repo.Messages.{
  max_seq, clashes_any, numbered, append, is_listed, insert_desc, sort_desc, list_recent,
}

-- All rows have a number below `n`.
abbrev Below : ℕ → List Message → Type 0
Below n = All (λ (x : Message). x.seq < n)

Below-insert_desc :
    (n : ℕ) (m : Message) (rows : List Message)
    → m.seq < n
    → Below n rows
    → Below n (insert_desc m rows)
Below-insert_desc n m [] p h = (p, tt)
Below-insert_desc n m (x ∷ rows) p (px, h) = elim (Bool-cases (ltb m.seq x.seq)) [
  | inl e ↦ rw e (px, Below-insert_desc n m rows p h)
  | inr e ↦ rw e (p, (px, h))
]

-- A row with the highest number stands first.
sort_desc-append :
    (rows : List Message) (m : Message)
    → Below m.seq rows
    → sort_desc (rows ++ m ∷ []) ≡ m ∷ sort_desc rows
sort_desc-append [] m h = refl
sort_desc-append (x ∷ rows) m (p, h) = rw (sort_desc-append rows m h) (ground arith)

Below-mono : {a b : ℕ} → a ≤ b → (rows : List Message) → Below a rows → Below b rows
Below-mono le [] h = tt
Below-mono le (x ∷ rows) (p, h) = (omega arith, Below-mono le rows h)

Below-keep :
    (thread : String) (rows : List Message)
    → Below (max_seq thread rows + 1) (keep (is_listed thread) rows)
Below-keep thread [] = tt
Below-keep thread (m ∷ rows) =
    let rest = Below-keep thread rows in
    elim (Bool-cases (m.thread_id == thread)) [
      | inl e ↦ rw e (elim (Bool-cases (m.status == "complete" || m.status == "partial")) [
        | inl s ↦ rw s (omega arith, Below-mono (omega arith) (keep (is_listed thread) rows) rest)
        | inr s ↦ rw s (Below-mono (omega arith) (keep (is_listed thread) rows) rest)
      ])
      | inr e ↦ rw e rest
    ]

-- Whether a row of the table has this `message_id`.
abbrev pub has_id : String → List Message → Bool
has_id id [] = false
has_id id (x ∷ rows) = id == x.message_id || has_id id rows

-- Only the `message_id` of a freshly numbered row can clash.
pub clashes_any_fresh :
    (m : Message) (rows : List Message)
    → max_seq m.thread_id rows < m.seq
    → clashes_any m rows ≡ has_id m.message_id rows
clashes_any_fresh m [] h = refl
clashes_any_fresh m (x ∷ rows) h = ground (
  arith,
  clashes_any_fresh m rows,
  eq_iff m.thread_id x.thread_id,
  eq_iff x.thread_id m.thread_id,
)

pub seq-numbered :
    (now : ℕ) (m : Message) (rows : List Message)
    → m.seq ≡ 0
    → (numbered now m rows).seq ≡ max_seq m.thread_id rows + 1
seq-numbered now m rows auto = rw auto

pub append_fresh :
    (now : ℕ) (m : Message) (db : Db)
    → m.seq ≡ 0
    → has_id m.message_id db.messages ≡ false
    → append now m db
      ≡ (ok tt, record db { messages = db.messages ++ numbered now m db.messages ∷ [] })
unfolding append
append_fresh now m db auto fresh =
    let e = seq-numbered now m db.messages auto in
    rw (clashes_any_fresh (numbered now m db.messages) db.messages (omega arith)) (rw fresh)

sort_desc-keep-append :
    (thread : String) (row : Message) (rows : List Message)
    → is_listed thread row ≡ true
    → Below row.seq (keep (is_listed thread) rows)
    → sort_desc (keep (is_listed thread) (rows ++ row ∷ []))
      ≡ row ∷ sort_desc (keep (is_listed thread) rows)
sort_desc-keep-append thread row rows listed below =
    rw keep-append (rw listed (sort_desc-append (keep (is_listed thread) rows) row below))

-- A message that asks for the next number, has a new id and is complete or partial is stored, and is
-- then the first that `list_recent` shows of its thread, before what it showed already.
pub append-list_recent :
    (now limit : ℕ) (m : Message) (db : Db)
    → m.seq ≡ 0
    → has_id m.message_id db.messages ≡ false
    → (m.status == "complete" || m.status == "partial") ≡ true
    → ((append now m db).0 ≡ ok tt)
      × (list_recent m.thread_id (suc limit) (append now m db).1
          ≡ numbered now m db.messages ∷ list_recent m.thread_id limit db)
append-list_recent now limit m db auto fresh listed =
    let row = numbered now m db.messages in
    let e = seq-numbered now m db.messages auto in
    rw (append_fresh now m db auto fresh) (
      refl,
      unfold list_recent in
          ap (take (suc limit)) (
            sort_desc-keep-append m.thread_id row db.messages (ground (arith, eq_refl m.thread_id))
              (Below-mono (omega arith) _ (Below-keep m.thread_id db.messages))),
    )

-- Appending to one thread, whether it succeeds or not, leaves what is shown of the others.
pub append-list_recent_ne :
    (now limit : ℕ) (m : Message) (thread : String) (db : Db)
    → m.thread_id ≢ thread
    → list_recent thread limit (append now m db).1 ≡ list_recent thread limit db
append-list_recent_ne now limit m thread db other =
    elim (Bool-cases (clashes_any (numbered now m db.messages) db.messages)) [
      | inl e ↦ unfold append in rw e
      | inr e ↦
          unfold append list_recent in
          rw (e, keep-append)
            (ground
              (arith, eq_iff m.thread_id thread, append-nil (keep (is_listed thread) db.messages)))
    ]
