-- ===== src/Api/Socket/Bound.antt =====
-- The bound on the tasks of a connection.
use ocm_agent_v.Common.{
  Bool-cases, length, Outcome, ok, raised, ℕ, suc, ◌≤◌, String, ◌≡◌, refl, inl, inr, Option, none,
  some, List, [], ◌∷◌, arith, ◌==◌,
}
use ocm_agent_v.Value.{Fields, Value, null, str, num, bool, obj, arr, lookup_or, is_hashable}
use ocm_agent_v.Plugin.Formats.{Formats}
use ocm_agent_v.Graph.Events.{decode_ws_frame}
use ocm_agent_v.Api.Socket.{
  Connection, max_concurrent, can_accept, add, remove, find_task, Input, received, timed_out,
  disconnected, task_ended, Next, goes_on, broke, crashed, Step, ask, cancel_found, cancel,
  dispatch, frame_error_of, on_bad_frame, on_frame, own_id_of, end_task, step, by_next, run,
}

length-add-le :
    (key : Value) (task : ℕ) (d : List (Value × ℕ)) → length (add key task d) ≤ suc (length d)
unfolding add
length-add-le key task [] = omega arith
length-add-le key task ((k, t) ∷ d) = ground (arith, length-add-le key task d)

length-remove-le : (key : Value) (d : List (Value × ℕ)) → length (remove key d) ≤ length d
unfolding remove
length-remove-le key [] = omega arith
length-remove-le key ((k, t) ∷ d) = ground (arith, length-remove-le key d)

-- The table is within the bound, and is empty once the loop has been left.
abbrev pub IsBounded : Next × Connection → Type 0
IsBounded (goes_on, c) = length c.active ≤ max_concurrent
IsBounded (_, c) = c.active ≡ []

abbrev Bounded : Step → Type 0
Bounded s = IsBounded (s.next, s.connection)

ask-Bounded :
    (ulid : String) (frame : Fields) (c : Connection)
    → length c.active ≤ max_concurrent
    → Bounded (ask ulid frame c)
ask-Bounded ulid frame c h =
    let key = lookup_or "request_id" (str "") frame in
    elim (Bool-cases (can_accept c)) [
      | inr e ↦ rw e h
      | inl e ↦ elim (Bool-cases (is_hashable key)) [
        | inr g ↦ rw (e, g) refl
        | inl g ↦ rw (e, g) (ground (arith, length-add-le key c.created c.active))
      ]
    ]

cancel_found-Bounded :
    (key : Value) (found : Option ℕ) (c : Connection)
    → length c.active ≤ max_concurrent
    → Bounded (cancel_found key found c)
cancel_found-Bounded key none c h = h
cancel_found-Bounded key (some task) c h = omega (arith, length-remove-le key c.active)

cancel-Bounded :
    (frame : Fields) (c : Connection) → length c.active ≤ max_concurrent → Bounded (cancel frame c)
cancel-Bounded frame c h =
    let key = lookup_or "request_id" (str "") frame in
    elim (Bool-cases (is_hashable key)) [
      | inr g ↦ rw g refl
      | inl g ↦ rw g (cancel_found-Bounded key (find_task key c.active) c h)
    ]

dispatch-Bounded :
    (ulid : String) (frame : Fields) (op : Value) (c : Connection)
    → length c.active ≤ max_concurrent
    → Bounded (dispatch ulid frame op c)
dispatch-Bounded ulid frame (str op) c h = elim (Bool-cases (op == "ping")) [
  | inl e ↦ rw e h
  | inr e ↦ elim (Bool-cases (op == "ask")) [
    | inl g ↦ rw (e, g) (ask-Bounded ulid frame c h)
    | inr g ↦ elim (Bool-cases (op == "cancel")) [
      | inl k ↦ rw (e, g, k) (cancel-Bounded frame c h)
      | inr k ↦ rw (e, g, k) h
    ]
  ]
]
dispatch-Bounded ulid frame null c h = h
dispatch-Bounded ulid frame (bool b) c h = h
dispatch-Bounded ulid frame (num n) c h = h
dispatch-Bounded ulid frame (arr vs) c h = h
dispatch-Bounded ulid frame (obj d) c h = h

on_frame-Bounded :
    (ulid : String) (r : Outcome Fields) (c : Connection)
    → length c.active ≤ max_concurrent
    → Bounded (on_frame ulid r c)
on_frame-Bounded ulid (ok frame) c h = dispatch-Bounded ulid frame (lookup_or "op" null frame) c h
on_frame-Bounded ulid (raised e) c h = bad (frame_error_of e)
  where
    bad : (m : Option String) → Bounded (on_bad_frame e m c)
    bad none = refl
    bad (some text) = h

end_task-Bounded :
    (n : ℕ) (id : Option Value) (c : Connection)
    → length c.active ≤ max_concurrent
    → length (end_task n id c).active ≤ max_concurrent
end_task-Bounded n none c h = h
end_task-Bounded n (some id) c h = omega (arith, length-remove-le id c.active)

step-Bounded :
    (f : Formats) (ulid : String) (input : Input) (c : Connection)
    → length c.active ≤ max_concurrent
    → Bounded (step f ulid input c)
unfolding step
step-Bounded f ulid (received raw) c h = on_frame-Bounded ulid (decode_ws_frame f raw) c h
step-Bounded f ulid timed_out c h = refl
step-Bounded f ulid disconnected c h = refl
step-Bounded f ulid (task_ended n) c h = end_task-Bounded n (own_id_of n c.tasks) c h

by_next-IsBounded :
    (s : Step) (next : Next) (rest : List Value × (Next × Connection))
    → IsBounded (next, s.connection)
    → (length s.connection.active ≤ max_concurrent → IsBounded rest.1)
    → IsBounded (by_next s next rest).1
by_next-IsBounded s goes_on (later, final) h k = k h
by_next-IsBounded s broke rest h k = h
by_next-IsBounded s (crashed e) rest h k = h

-- Whatever a client sends and whenever tasks end, the table of a connection's tasks never has more
-- than 5 entries, and it is empty once the loop has been left.
pub run-IsBounded :
    (f : Formats) (inputs : List (String × Input)) (c : Connection)
    → length c.active ≤ max_concurrent
    → IsBounded (run f inputs c).1
unfolding run
run-IsBounded f [] c h = h
run-IsBounded f ((ulid, input) ∷ inputs) c h =
    let s = step f ulid input c in
    by_next-IsBounded s s.next (run f inputs s.connection) (step-Bounded f ulid input c h)
      (run-IsBounded f inputs s.connection)
