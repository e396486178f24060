-- ===== src/Jmap/Dispatcher/Answers.antt =====
-- A request is answered call by call.
use yunt.Prelude.{
  ℕ, ◌≤◌, String, false, Option, none, some, List, [], ◌∷◌, ◌≡◌, refl, map, length, ltb, arith,
}
use yunt.Prelude.Maps.{GoMap, lookup}
use yunt.Jmap.Dispatcher.Values.{Json}
use yunt.Jmap.Dispatcher.Calls.{
  Invocation, ResultReference, RefError, Resolved, resolved, unresolved, resolve_result_refs,
}
use yunt.Jmap.Dispatcher.{
  Outcome, done, method_failed, MethodFunc, Dispatcher, Request, finished, invoked, routed, serve,
  serve_all, dispatch,
}

abbrev pub call_ids : List Invocation → List String
call_ids = map (λ i. i.call_id)

module _ {S : Type 0} (decode : Json → Option ResultReference) (describe : RefError → String)
    (too_many : ℕ → ℕ → String) (keys : ℕ → List String) where
  invoked-call_id :
      (call : Invocation) (results : GoMap Json) (args : Json) (fn : Option (MethodFunc S)) (s : S)
      → (invoked decode describe too_many keys call results args fn s).1.call_id ≡ call.call_id
  unfolding invoked
  invoked-call_id call results args none s = refl
  invoked-call_id call results args (some fn) s = from (fn args s)
    where
      from :
          (r : S × Outcome)
          → (finished decode describe too_many keys call results r).1.call_id ≡ call.call_id
      from (s', done result) = refl
      from (s', method_failed e) = refl

  serve-call_id :
      (d : Dispatcher S) (i : ℕ) (call : Invocation) (results : GoMap Json) (s : S)
      → (serve decode describe too_many keys d i call results s).1.call_id ≡ call.call_id
  unfolding serve
  serve-call_id d i call results s = from (resolve_result_refs decode results call.args (keys i))
    where
      from :
          (r : Resolved)
          → (routed decode describe too_many keys d call results r s).1.call_id ≡ call.call_id
      from (resolved args) = invoked-call_id call results args (lookup call.name d.methods) s
      from (unresolved e) = refl

  serve_all-call_ids :
      (d : Dispatcher S) (calls : List Invocation) (results : GoMap Json) (s : S)
      → call_ids (serve_all decode describe too_many keys d calls results s).0 ≡ call_ids calls
  unfolding serve_all
  serve_all-call_ids d [] results s = refl
  serve_all-call_ids d (call ∷ calls) results s =
      rw (serve-call_id d (length calls) call results s, serve_all-call_ids d calls _ _) refl

  -- A request of no more calls than the limit is answered by one response per call, in the order of
  -- the calls and under their ids.
  dispatch-call_ids :
      (d : Dispatcher S) (req : Request) (s : S)
      → length req.method_calls ≤ d.max_calls
      → call_ids (dispatch decode describe too_many keys d req s).0.method_responses
        ≡ call_ids req.method_calls
  unfolding dispatch
  dispatch-call_ids d req s h =
      let within : ltb d.max_calls (length req.method_calls) ≡ false = ground arith in
      rw within (serve_all-call_ids d req.method_calls [] s)
