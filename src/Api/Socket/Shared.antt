-- ===== src/Api/Socket/Shared.antt =====
-- Requests of one connection that share an id.
use ocm_agent_v.Common.{
  length, replicate, ℕ, zero, suc, ◌+◌, String, ◌≡◌, refl, sym, subst, ◌⊎◌, inl, inr, true, List,
  [], ◌∷◌, arith, eq_refl,
}
use ocm_agent_v.Value.{Value, str, dict, py_eq}
use ocm_agent_v.Plugin.Formats.{Formats}
use ocm_agent_v.Graph.Events.{parsed, decode_ws_frame}
use ocm_agent_v.Api.Socket.{
  Connection, new_connection, can_accept, add, Input, received, goes_on, Step, stays, own_id, step,
  by_next, run,
}

-- A client's frame that asks under an id.
abbrev pub ask_frame : String → String → Input
ask_frame id question =
    received
      (parsed (dict (("op", str "ask") ∷ ("request_id", str id) ∷ ("question", str question) ∷ [])))

abbrev IsShared : String → List (Value × ℕ) → Type 0
IsShared id active = (active ≡ []) ⊎ ((t : ℕ) × (active ≡ (str id, t) ∷ []))

add-IsShared :
    (id : String) (n : ℕ) (active : List (Value × ℕ))
    → IsShared id active
    → add (str id) n active ≡ (str id, n) ∷ []
unfolding add py_eq
add-IsShared id n active (inl e) = rw e refl
add-IsShared id n active (inr (t, e)) = rw e (rw eq_refl refl)

can_accept-IsShared : (id : String) (c : Connection) → IsShared id c.active → can_accept c ≡ true
can_accept-IsShared id c (inl e) = rw e refl
can_accept-IsShared id c (inr (t, e)) = rw e refl

-- One more task runs, and the table has the one entry of the id.
ask_again :
    (f : Formats) (ulid id question : String) (c : Connection)
    → IsShared id c.active
    → step f ulid (ask_frame id question) c
      ≡ stays [] (record c {
        active = (str id, c.created) ∷ [];
        tasks = (c.created, own_id ulid (str id)) ∷ c.tasks;
        created = suc c.created;
      })
unfolding step decode_ws_frame
ask_again f ulid id question c h =
    rw (can_accept-IsShared id c h, add-IsShared id c.created c.active h) refl

shared_asks :
    (f : Formats) (ulid id question : String) (n : ℕ) (c : Connection)
    → IsShared id c.active
    → let (sent, (next, c')) = run f (replicate n (ulid, ask_frame id question)) c in
      (sent ≡ []) × (next ≡ goes_on) × (length c'.tasks ≡ n + length c.tasks)
unfolding run
shared_asks f ulid id question zero c h = (refl, refl, omega arith)
shared_asks f ulid id question (suc n) c h =
    let again : Connection = record c {
      active = (str id, c.created) ∷ [];
      tasks = (c.created, own_id ulid (str id)) ∷ c.tasks;
      created = suc c.created;
    } in
    let (quiet, open_still, many) =
      shared_asks f ulid id question n again (inr (c.created, refl)) in
    subst
      (λ (s : Step).
        let r = by_next s s.next (run f (replicate n (ulid, ask_frame id question)) s.connection) in
        (r.0 ≡ []) × (r.1.0 ≡ goes_on) × (length r.1.1.tasks ≡ suc n + length c.tasks))
      (sym (ask_again f ulid id question c h)) (quiet, open_still, omega (arith, many))

-- The bound is on the entries of the table, not on the tasks: any number of requests that share an
-- id are accepted, without an answer that refuses one, and all of them run at once.
pub run_shared_asks :
    (f : Formats) (ulid id question : String) (n : ℕ)
    → let (sent, (next, c)) = run f (replicate n (ulid, ask_frame id question)) new_connection in
      (sent ≡ []) × (next ≡ goes_on) × (length c.tasks ≡ n)
run_shared_asks f ulid id question n =
    let (quiet, open_still, many) = shared_asks f ulid id question n new_connection (inl refl) in
    (quiet, open_still, omega (arith, many))
