-- ===== src/Repo/Messages/Order.antt =====
-- The order and the bounds of what `list_recent` returns.
use ocm_agent_v.Common.{
  ltb, Bool-cases, length, take, keep, length-take-le, All, All-take, ℕ, zero, suc, ◌≤◌, String,
  ◌≡◌, inl, inr, Bool, true, List, [], ◌∷◌, arith,
}
use ocm_agent_v.Repo.Models.{Message, Db}
use ocm_agent_v.Repo.Messages.{is_listed, insert_desc, sort_desc, list_recent}

-- Each number is at least the next one.
abbrev pub Descends : List Message → Type 0
Descends [] = Unit
Descends (m ∷ rows) = All (λ (x : Message). x.seq ≤ m.seq) rows × Descends rows

module _ {ℓ} (P : Message → Type ℓ) where
  All-insert_desc :
      (m : Message) (rows : List Message) → P m → All P rows → All P (insert_desc m rows)
  All-insert_desc m [] p h = (p, tt)
  All-insert_desc m (x ∷ rows) p (px, h) = elim (Bool-cases (ltb m.seq x.seq)) [
    | inl e ↦ rw e (px, All-insert_desc m rows p h)
    | inr e ↦ rw e (p, (px, h))
  ]

  All-sort_desc : (rows : List Message) → All P rows → All P (sort_desc rows)
  All-sort_desc [] h = tt
  All-sort_desc (m ∷ rows) (p, h) = All-insert_desc m (sort_desc rows) p (All-sort_desc rows h)

All-below :
    {a b : ℕ}
    → a ≤ b
    → (rows : List Message) → All (λ (x : Message). x.seq ≤ a) rows
    → All (λ (x : Message). x.seq ≤ b) rows
All-below le [] h = tt
All-below le (x ∷ rows) (p, h) = (omega arith, All-below le rows h)

keep_holds :
    (q : Message → Bool) (rows : List Message) → All (λ (m : Message). q m ≡ true) (keep q rows)
keep_holds q [] = tt
keep_holds q (m ∷ rows) = elim (Bool-cases (q m)) [
  | inl e ↦ rw e (e, keep_holds q rows)
  | inr e ↦ rw e (keep_holds q rows)
]

Descends-insert_desc :
    (m : Message) (rows : List Message) → Descends rows → Descends (insert_desc m rows)
Descends-insert_desc m [] h = (tt, tt)
Descends-insert_desc m (x ∷ rows) (top, h) = elim (Bool-cases (ltb m.seq x.seq)) [
  | inl e ↦ rw e (
    All-insert_desc (λ (y : Message). y.seq ≤ x.seq) m rows (ground arith) top,
    Descends-insert_desc m rows h,
  )
  | inr e ↦ rw e ((ground arith, All-below (ground arith) rows top), (top, h))
]

Descends-sort_desc : (rows : List Message) → Descends (sort_desc rows)
Descends-sort_desc [] = tt
Descends-sort_desc (m ∷ rows) = Descends-insert_desc m (sort_desc rows) (Descends-sort_desc rows)

Descends-take : (n : ℕ) (rows : List Message) → Descends rows → Descends (take n rows)
Descends-take zero rows h = tt
Descends-take (suc n) [] h = tt
Descends-take (suc n) (m ∷ rows) (top, h) =
    (All-take (λ (x : Message). x.seq ≤ m.seq) n rows top, Descends-take n rows h)

-- `list_recent` returns at most `limit` messages, newest first, all of the thread that was asked
-- for and none of them failed.
pub list_recent_bounds :
    (thread : String) (limit : ℕ) (db : Db)
    → (length (list_recent thread limit db) ≤ limit)
      × Descends (list_recent thread limit db)
      × All (λ (m : Message). is_listed thread m ≡ true) (list_recent thread limit db)
unfolding list_recent
list_recent_bounds thread limit db =
    let chosen = keep (is_listed thread) db.messages in
    (
      length-take-le limit (sort_desc chosen),
      Descends-take limit (sort_desc chosen) (Descends-sort_desc chosen),
      All-take _ limit (sort_desc chosen)
          (All-sort_desc _ chosen (keep_holds (is_listed thread) db.messages)),
    )
