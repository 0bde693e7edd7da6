-- ===== src/Graph/Builtins/Memory.antt =====
-- A turn that was stored is the end of the history of the next question.
use ocm_agent_v.Common.{
  nat_eq, Bool-cases, length, drop, length-append, ℕ, zero, suc, ◌-◌, ◌≤◌, ◌<◌, String, ◌≡◌, refl,
  ap, ◌∙◌, inl, inr, true, false, none, some, List, [], ◌∷◌, ◌++◌, reverse, reverse-append, arith,
  ◌==◌, eq_iff,
}
use ocm_agent_v.Value.{end}
use ocm_agent_v.Repo.Models.{Message}
use ocm_agent_v.Graph.Builtins.{is_turn, pair_turns, last_of, flatten_turns, build_history}

no_turn_before_user : (m u : Message) → (u.role == "user") ≡ true → is_turn m u ≡ false
no_turn_before_user m u e =
    ground (arith, eq_iff u.role "user", eq_iff u.role "assistant", eq_iff "user" "assistant")

-- A turn at the end, before the question, is found whatever stands before it.
pair_turns-append :
    (older : List Message) (u a q : Message)
    → is_turn u a ≡ true
    → pair_turns (older ++ u ∷ a ∷ q ∷ []) ≡ pair_turns older ++ (u, a) ∷ []
unfolding pair_turns
pair_turns-append [] u a q t = rw t refl
pair_turns-append (m ∷ []) u a q t = rw (no_turn_before_user m u (ground arith)) (rw t refl)
pair_turns-append (m ∷ n ∷ rest) u a q t = elim (Bool-cases (is_turn m n)) [
  | inl e ↦ rw e (ap (λ l. (m, n) ∷ l) (pair_turns-append rest u a q t))
  | inr e ↦ rw e (pair_turns-append (n ∷ rest) u a q t)
]

drop-snoc :
    {A : Type 0} (k : ℕ) (xs : List A) (x : A)
    → k ≤ length xs
    → drop k (xs ++ x ∷ []) ≡ drop k xs ++ x ∷ []
drop-snoc zero xs x h = refl
drop-snoc (suc k) [] x h = absurd (omega arith)
drop-snoc (suc k) (y ∷ xs) x h = drop-snoc k xs x (omega arith)

flatten_turns-append :
    (ts : List (Message × Message)) (u a : Message)
    → flatten_turns (ts ++ (u, a) ∷ []) ≡ flatten_turns ts ++ u ∷ a ∷ []
flatten_turns-append [] u a = refl
flatten_turns-append ((v, b) ∷ ts) u a = ap (λ l. v ∷ b ∷ l) (flatten_turns-append ts u a)

last_of-snoc :
    (k : ℕ) (ts : List (Message × Message)) (t : Message × Message)
    → 0 < k
    → (us : List (Message × Message)) × (last_of k (ts ++ t ∷ []) ≡ us ++ t ∷ [])
last_of-snoc k ts t h =
    let e : nat_eq k 0 ≡ false = ground arith in
    let n : ℕ = length (ts ++ t ∷ []) - k in
    (drop n ts, rw e (drop-snoc n ts t (omega (arith, length-append ts (t ∷ [])))))

pub build_history-newest :
    (max_turns : ℕ) (u a q : Message) (older : List Message)
    → 0 < max_turns
    → is_turn u a ≡ true
    → (earlier : List Message) × (build_history max_turns (q ∷ a ∷ u ∷ older)
        ≡ earlier ++ u ∷ a ∷ [])
unfolding build_history
build_history-newest max_turns u a q older h t =
    let ts = pair_turns (reverse older) in
    let (us, e) = last_of-snoc max_turns ts (u, a) h in
    let order : reverse (q ∷ a ∷ u ∷ older) ≡ reverse older ++ u ∷ a ∷ q ∷ [] =
      reverse-append (q ∷ a ∷ u ∷ []) older in
    (
      flatten_turns us,
      ap (λ l. flatten_turns (last_of max_turns l))
            (ap pair_turns order ∙ pair_turns-append (reverse older) u a q t)
          ∙ ap flatten_turns e
          ∙ flatten_turns-append us u a,
    )

-- The message that `ChatService` appends for a question.
abbrev pub question_message : String → String → String → String → Message
question_message id thread text request = record {
  message_id = id;
  thread_id = thread;
  seq = 0;
  role = "user";
  content = text;
  content_meta = end;
  status = "complete";
  route = none;
  request_id = some request;
  created_at = none;
  ext = end;
}
