-- ===== src/Jmap/Dispatcher.antt =====
-- `Dispatcher` of internal/jmap/dispatcher.go. A handler takes the state of the server and returns it
-- with its answer. `keys i` is the order in which the runtime visits the arguments' keys of the call
-- that has `i` calls after it, and `decode`, `describe` and `too_many` are what encoding/json makes of a
-- reference and the texts of the errors.
pub mod Values
pub mod Calls
pub mod Paths
pub mod References
pub mod Resolution
pub mod Arguments
pub mod Answers
use yunt.Prelude.{ℕ, suc, String, Option, none, some, List, [], ◌∷◌, ltb, if◌then◌else◌, length}
use yunt.Prelude.Int.{ℤ, positive_or}
use yunt.Prelude.Maps.{GoMap, lookup, insert}
use yunt.Jmap.Dispatcher.Values.{Json}
use yunt.Jmap.Dispatcher.Calls.{
  Invocation, ResultReference, MethodError, to_invocation, RefError, Resolved, resolved, unresolved,
  resolve_result_refs,
}

-- What a handler returns.
pub data Outcome : Type 0 where
  done : Json → Outcome
  method_failed : MethodError → Outcome

abbrev pub MethodFunc : Type 0 → Type 0
MethodFunc S = Json → S → S × Outcome

pub record Dispatcher (S : Type 0) : Type 0 where
  pub methods : GoMap (MethodFunc S)
  pub max_calls : ℕ

abbrev pub new_dispatcher : {S : Type 0} → ℤ → Dispatcher S
new_dispatcher max_calls = record { methods = []; max_calls = positive_or max_calls 64 }

abbrev pub register : {S : Type 0} → String → MethodFunc S → Dispatcher S → Dispatcher S
register name fn d = record d { methods = insert name fn d.methods }

pub record Response : Type 0 where
  pub method_responses : List Invocation
  pub created_ids : GoMap String

pub record Request : Type 0 where
  pub method_calls : List Invocation
  pub created_ids : GoMap String

abbrev pub unknown_method : String → MethodError
unknown_method name = record { kind = "unknownMethod"; description = name }

-- What one call leaves: the results for later calls, its answer and the state.
abbrev pub Served : Type 0 → Type 0
Served S = GoMap Json × Invocation × S

module _ {S : Type 0} (decode : Json → Option ResultReference) (describe : RefError → String)
    (too_many : ℕ → ℕ → String) (keys : ℕ → List String) where
  unfoldable pub finished : Invocation → GoMap Json → S × Outcome → Served S
  finished call results (s, method_failed e) = (results, to_invocation e call.call_id, s)
  finished call results (s, done result) = (
    insert call.call_id result results,
    record { name = call.name; args = result; call_id = call.call_id },
    s,
  )

  unfoldable pub invoked : Invocation → GoMap Json → Json → Option (MethodFunc S) → S → Served S
  unfolding finished
  invoked call results args none s =
      (results, to_invocation (unknown_method call.name) call.call_id, s)
  invoked call results args (some fn) s = finished call results (fn args s)

  unfoldable pub routed : Dispatcher S → Invocation → GoMap Json → Resolved → S → Served S
  unfolding invoked
  routed d call results (unresolved e) s = (
    results,
    to_invocation (record { kind = "invalidResultReference"; description = describe e })
        call.call_id,
    s,
  )
  routed d call results (resolved args) s = invoked call results args (lookup call.name d.methods) s

  unfoldable pub serve : Dispatcher S → ℕ → Invocation → GoMap Json → S → Served S
  unfolding routed
  serve d i call results s =
      routed d call results (resolve_result_refs decode results call.args (keys i)) s

  -- The loop over the calls.
  unfoldable pub serve_all : Dispatcher S → List Invocation → GoMap Json → S → List Invocation × S
  unfolding serve
  serve_all d [] results s = ([], s)
  serve_all d (call ∷ calls) results s =
      let served = serve d (length calls) call results s in
      let rest = serve_all d calls served.0 served.2 in (served.1 ∷ rest.0, rest.1)

  unfoldable pub dispatch : Dispatcher S → Request → S → Response × S
  unfolding serve_all
  dispatch d req s =
      let n = length req.method_calls in
      if ltb d.max_calls n
      then (
        record {
          method_responses =
              to_invocation
                (record { kind = "requestTooLarge"; description = too_many n d.max_calls }) ""
              ∷ [];
          created_ids = req.created_ids;
        },
        s,
      )
      else let rest = serve_all d req.method_calls [] s in
        (record { method_responses = rest.0; created_ids = req.created_ids }, rest.1)
