-- ===== src/Graph/Builtins/History.antt =====
-- What the history of a session is made of.
use ocm_agent_v.Common.{
  nat_eq, Bool-cases, length, drop, length-drop, length-append, All, All-drop, ℕ, zero, suc, ◌-◌,
  ◌*◌, ◌≤◌, ◌<◌, ◌≡◌, refl, ap, ◌∙◌, ◌⊎◌, inl, inr, true, false, List, [], ◌∷◌, ◌++◌, reverse,
  reverse-append, reverse-reverse, arith,
}
use ocm_agent_v.Repo.Models.{Message}
use ocm_agent_v.Graph.Builtins.{is_turn, pair_turns, last_of, flatten_turns, build_history}

-- Complete turns, one after the other.
abbrev pub Alternates : List Message → Type 0
Alternates [] = Unit
Alternates (m ∷ []) = ⊥
Alternates (m ∷ n ∷ rest) = (is_turn m n ≡ true) × Alternates rest

abbrev pub AllTurns : List (Message × Message) → Type 0
AllTurns = All (λ (t : Message × Message). is_turn t.0 t.1 ≡ true)

-- The first list arises from the second by leaving messages out.
pub data Within : List Message → List Message → Type 0 where
  nil : Within [] []
  left_out : {xs ys : List Message} (m : Message) → Within xs ys → Within xs (m ∷ ys)
  kept : {xs ys : List Message} (m : Message) → Within xs ys → Within (m ∷ xs) (m ∷ ys)

pair_turns-AllTurns : (ms : List Message) → AllTurns (pair_turns ms)
unfolding pair_turns
pair_turns-AllTurns [] = tt
pair_turns-AllTurns (m ∷ []) = tt
pair_turns-AllTurns (m ∷ n ∷ rest) = elim (Bool-cases (is_turn m n)) [
  | inl e ↦ rw e (e, pair_turns-AllTurns rest)
  | inr e ↦ rw e (pair_turns-AllTurns (n ∷ rest))
]

last_of-AllTurns : (k : ℕ) (ts : List (Message × Message)) → AllTurns ts → AllTurns (last_of k ts)
last_of-AllTurns k ts h = elim (Bool-cases (nat_eq k 0)) [
  | inl e ↦ rw e h
  | inr e ↦ rw e (All-drop _ (length ts - k) ts h)
]

flatten_turns-Alternates :
    (ts : List (Message × Message)) → AllTurns ts → Alternates (flatten_turns ts)
flatten_turns-Alternates [] h = tt
flatten_turns-Alternates ((u, a) ∷ ts) (t, h) = (t, flatten_turns-Alternates ts h)

length-flatten_turns : (ts : List (Message × Message)) → length (flatten_turns ts) ≡ 2 * length ts
length-flatten_turns [] = omega arith
length-flatten_turns ((u, a) ∷ ts) = omega (arith, length-flatten_turns ts)

length-last_of-le : (k : ℕ) (ts : List (Message × Message)) → 0 < k → length (last_of k ts) ≤ k
length-last_of-le k ts h =
    let e : nat_eq k 0 ≡ false = ground arith in
    rw e (omega (arith, length-drop (length ts - k) ts))

Within-nil : (ms : List Message) → Within [] ms
Within-nil [] = nil
Within-nil (m ∷ ms) = left_out m (Within-nil ms)

pair_turns-Within : (ms : List Message) → Within (flatten_turns (pair_turns ms)) ms
unfolding pair_turns
pair_turns-Within [] = nil
pair_turns-Within (m ∷ []) = left_out m nil
pair_turns-Within (m ∷ n ∷ rest) = elim (Bool-cases (is_turn m n)) [
  | inl e ↦ rw e (kept m (kept n (pair_turns-Within rest)))
  | inr e ↦ rw e (left_out m (pair_turns-Within (n ∷ rest)))
]

Within-tail : {m : Message} {xs ys : List Message} → Within (m ∷ xs) ys → Within xs ys
Within-tail (left_out n w) = left_out n (Within-tail w)
Within-tail (kept m w) = left_out m w

Within-drop :
    (k : ℕ) (ts : List (Message × Message)) (ys : List Message)
    → Within (flatten_turns ts) ys
    → Within (flatten_turns (drop k ts)) ys
Within-drop zero ts ys w = w
Within-drop (suc k) [] ys w = w
Within-drop (suc k) ((u, a) ∷ ts) ys w = Within-drop k ts ys (Within-tail (Within-tail w))

Within-last_of :
    (k : ℕ) (ts : List (Message × Message)) (ys : List Message)
    → Within (flatten_turns ts) ys
    → Within (flatten_turns (last_of k ts)) ys
Within-last_of k ts ys w = elim (Bool-cases (nat_eq k 0)) [
  | inl e ↦ rw e w
  | inr e ↦ rw e (Within-drop (length ts - k) ts ys w)
]

-- The history is made of complete turns only, a user's message and the answer next to it, at most
-- `max_turns` of them, and its messages stand in the session in that order.
pub build_history_turns :
    (max_turns : ℕ) (recent : List Message)
    → 0 < max_turns
    → Alternates (build_history max_turns recent)
      × (length (build_history max_turns recent) ≤ 2 * max_turns)
      × Within (build_history max_turns recent) (reverse recent)
unfolding build_history
build_history_turns max_turns recent h =
    let ts = pair_turns (reverse recent) in
    (
      flatten_turns-Alternates (last_of max_turns ts)
          (last_of-AllTurns max_turns ts (pair_turns-AllTurns (reverse recent))),
      omega (arith, length-flatten_turns (last_of max_turns ts), length-last_of-le max_turns ts h),
      Within-last_of max_turns ts (reverse recent) (pair_turns-Within (reverse recent)),
    )

pair_turns-flatten_turns :
    (ts : List (Message × Message)) (pending : Message)
    → AllTurns ts
    → pair_turns (flatten_turns ts ++ pending ∷ []) ≡ ts
unfolding pair_turns
pair_turns-flatten_turns [] pending h = refl
pair_turns-flatten_turns ((u, a) ∷ ts) pending (t, h) =
    rw t (ap (λ l. (u, a) ∷ l) (pair_turns-flatten_turns ts pending h))

build_history-last_of :
    (max_turns : ℕ) (ts : List (Message × Message)) (question : Message)
    → AllTurns ts
    → build_history max_turns (question ∷ reverse (flatten_turns ts))
      ≡ flatten_turns (last_of max_turns ts)
unfolding build_history
build_history-last_of max_turns ts question h =
    let order : reverse (question ∷ reverse (flatten_turns ts))
        ≡ flatten_turns ts ++ question ∷ [] =
      reverse-append (question ∷ []) (reverse (flatten_turns ts))
      ∙ ap (λ l. l ++ question ∷ []) (reverse-reverse (flatten_turns ts)) in
    ap (λ l. flatten_turns (last_of max_turns l))
      (ap pair_turns order ∙ pair_turns-flatten_turns ts question h)

drop-length :
    (k : ℕ) (older newer : List (Message × Message))
    → k ≡ length older
    → drop k (older ++ newer) ≡ newer
drop-length zero [] newer h = refl
drop-length zero (t ∷ older) newer h = absurd (omega arith)
drop-length (suc k) [] newer h = absurd (omega arith)
drop-length (suc k) (t ∷ older) newer h = drop-length k older newer (omega arith)

last_of-append :
    (n : ℕ) (older newer : List (Message × Message))
    → 0 < n
    → (length newer ≡ n) ⊎ ((older ≡ []) × (length newer < n))
    → last_of n (older ++ newer) ≡ newer
last_of-append n older newer h (inl full) =
    let e : nat_eq n 0 ≡ false = ground arith in
    rw e (
      drop-length (length (older ++ newer) - n) older newer
        (omega (arith, length-append older newer)))
last_of-append n older newer h (inr (all, few)) =
    let e : nat_eq n 0 ≡ false = ground arith in
    rw (e, all) (drop-length (length newer - n) [] newer (omega arith))

-- Where the session holds complete turns and then the question that is being answered, the history
-- is the newest `max_turns` of those turns, or all of them where there are fewer, and neither an
-- older turn nor the question is part of it, for a `max_turns` above 0.
pub build_history_exact :
    (max_turns : ℕ) (older newer : List (Message × Message)) (question : Message)
    → 0 < max_turns
    → AllTurns (older ++ newer)
    → (length newer ≡ max_turns) ⊎ ((older ≡ []) × (length newer < max_turns))
    → build_history max_turns (question ∷ reverse (flatten_turns (older ++ newer)))
      ≡ flatten_turns newer
build_history_exact max_turns older newer question h turns size =
    build_history-last_of max_turns (older ++ newer) question turns
    ∙ ap flatten_turns (last_of-append max_turns older newer h size)
