-- ===== src/Repo/Messages/Keys.antt =====
-- The keys of the message table: PRIMARY KEY (message_id) and UNIQUE (thread_id, seq).
use ocm_agent_v.Common.{
  nat_eq, zero, ◌&&◌, ◌∙◌, sym, ◌⊎◌, raised, unique_violation, All-append, Bool-cases, All, ok, ℕ,
  suc, ◌<◌, ◌≡◌, refl, ◌≢◌, inl, inr, true, false, List, [], ◌∷◌, ◌++◌, arith, ◌==◌, eq_iff,
}
use ocm_agent_v.Repo.Models.{Message, Db}
use ocm_agent_v.Repo.Messages.{clashes, clashes_any, numbered, append}
use ocm_agent_v.Repo.Messages.Append.{has_id, clashes_any_fresh, seq-numbered}

-- Two rows with neither the same `message_id` nor the same thread and number.
abbrev pub AreApart : Message → Message → Type 0
AreApart m x = (m.message_id ≢ x.message_id) × ¬ ((m.thread_id ≡ x.thread_id) × (m.seq ≡ x.seq))

abbrev pub HasUniqueKeys : List Message → Type 0
HasUniqueKeys [] = Unit
HasUniqueKeys (m ∷ rows) = All (AreApart m) rows × HasUniqueKeys rows

-- A row has the message's `message_id`, or its thread and the number that the message asks for.
abbrev pub IsTaken : Message → List Message → Type 0
IsTaken m [] = ⊥
IsTaken m (x ∷ rows) =
    ((m.message_id ≡ x.message_id) ⊎ ((0 < m.seq) × (m.thread_id ≡ x.thread_id) × (m.seq ≡ x.seq)))
    ⊎ IsTaken m rows

clashes-AreApart : (a b : Message) → clashes a b ≡ false → AreApart a b
clashes-AreApart a b h =
    let off : ((a.message_id == b.message_id) ≡ false)
        × ((a.thread_id == b.thread_id && nat_eq a.seq b.seq) ≡ false) =
      ground arith in
    (
      λ e. cc (off.0, (eq_iff a.message_id b.message_id).1 e),
      λ (t, n).
          let same = (eq_iff a.thread_id b.thread_id).1 t in
          let number : nat_eq a.seq b.seq ≡ true = ground arith in
          absurd (cc (rw (same, number) at off.1)),
    )

AreApart-comm : (a b : Message) → AreApart a b → AreApart b a
AreApart-comm a b (ids, numbers) = (λ e. ids (sym e), λ (t, n). numbers (sym t, sym n))

clashes_any-AreApart :
    (m : Message) (rows : List Message) → clashes_any m rows ≡ false → All (AreApart m) rows
clashes_any-AreApart m [] h = tt
clashes_any-AreApart m (x ∷ rows) h =
    (clashes-AreApart m x (ground arith), clashes_any-AreApart m rows (ground arith))

HasUniqueKeys-snoc :
    (row : Message) (rows : List Message)
    → All (AreApart row) rows
    → HasUniqueKeys rows
    → HasUniqueKeys (rows ++ row ∷ [])
HasUniqueKeys-snoc row [] h u = (tt, tt)
HasUniqueKeys-snoc row (x ∷ rows) (h, hs) (ux, u) = (
  All-append (AreApart x) rows (row ∷ []) ux (AreApart-comm row x h, tt),
  HasUniqueKeys-snoc row rows hs u,
)

has_id-IsTaken :
    (m : Message) (rows : List Message) → has_id m.message_id rows ≡ true → IsTaken m rows
has_id-IsTaken m [] h = cc
has_id-IsTaken m (x ∷ rows) h = elim (Bool-cases (m.message_id == x.message_id)) [
  | inl e ↦ inl (inl ((eq_iff m.message_id x.message_id).0 e))
  | inr e ↦ inr (has_id-IsTaken m rows (rw e at h))
]

clashes_any-IsTaken :
    (m : Message) (rows : List Message) → 0 < m.seq → clashes_any m rows ≡ true → IsTaken m rows
clashes_any-IsTaken m [] some_seq h = cc
clashes_any-IsTaken m (x ∷ rows) some_seq h = elim (Bool-cases (m.message_id == x.message_id)) [
  | inl e ↦ inl (inl ((eq_iff m.message_id x.message_id).0 e))
  | inr e ↦ elim (Bool-cases (m.thread_id == x.thread_id)) [
    | inr g ↦ inr (clashes_any-IsTaken m rows some_seq (rw (e, g) at h))
    | inl g ↦ elim (Bool-cases (nat_eq m.seq x.seq)) [
      | inl k ↦ inl (inr (some_seq, (eq_iff m.thread_id x.thread_id).0 g, ground arith))
      | inr k ↦ inr (clashes_any-IsTaken m rows some_seq (rw (e, g, k) at h))
    ]
  ]
]

numbered-IsTaken :
    (now : ℕ) (m : Message) (rows : List Message)
    → clashes_any (numbered now m rows) rows ≡ true
    → IsTaken m rows
numbered-IsTaken now m rows h = elim (zero_or_more m.seq) [
  | inl auto ↦
      let e = seq-numbered now m rows auto in
      has_id-IsTaken m rows (sym (clashes_any_fresh (numbered now m rows) rows (omega arith)) ∙ h)
  | inr (n, given) ↦
      let e : (numbered now m rows).seq ≡ m.seq = rw given refl in
      of_row rows (clashes_any-IsTaken (numbered now m rows) rows (omega arith) h) e
]
  where
    zero_or_more : (n : ℕ) → (n ≡ 0) ⊎ ((k : ℕ) × (n ≡ suc k))
    zero_or_more zero = inl refl
    zero_or_more (suc k) = inr (k, refl)

    of_row :
        (xs : List Message)
        → IsTaken (numbered now m rows) xs
        → (numbered now m rows).seq ≡ m.seq
        → IsTaken m xs
    of_row [] t e = t
    of_row (x ∷ xs) (inl (inl same)) e = inl (inl same)
    of_row (x ∷ xs) (inl (inr (more, thread, number))) e =
        inl (inr (omega arith, thread, sym e ∙ number))
    of_row (x ∷ xs) (inr later) e = inr (of_row xs later e)

-- If no two rows share a `message_id`, nor a thread and a number, then every call of `append`, with
-- whatever number and id, keeps it so: it stores the message, or it raises the violation and changes
-- nothing, and this only if the id, or a number above 0 that was asked for, is taken.
pub append-HasUniqueKeys :
    (now : ℕ) (m : Message) (db : Db)
    → HasUniqueKeys db.messages
    → let r = append now m db in
      HasUniqueKeys r.1.messages
      × ((r ≡ (ok tt, record db { messages = db.messages ++ numbered now m db.messages ∷ [] }))
          ⊎ ((r ≡ (raised (unique_violation "ma_message"), db)) × IsTaken m db.messages))
append-HasUniqueKeys now m db u =
    let row = numbered now m db.messages in
    elim (Bool-cases (clashes_any row db.messages)) [
      | inl e ↦ unfold append in rw e (u, inr (refl, numbered-IsTaken now m db.messages e))
      | inr e ↦
          unfold append in
          rw e (
            HasUniqueKeys-snoc row db.messages (clashes_any-AreApart row db.messages e) u,
            inl refl,
          )
    ]
