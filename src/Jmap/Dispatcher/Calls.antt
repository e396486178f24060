-- ===== src/Jmap/Dispatcher/Calls.antt =====
-- `resolveResultRefs` and `Dispatch` of internal/jmap/dispatcher.go, with the requests and the errors of
-- internal/jmap/core. What encoding/json makes of a reference and the texts of the errors are
-- parameters. The order in which the runtime visits the keys of a map is an argument, a list of keys.
use Prim.Native.Char.{code}
use yunt.Prelude.{
  String, Bool, true, false, Option, none, some, List, [], ◌∷◌, ◌==◌, if◌then◌else◌, str_eq,
}
use yunt.Prelude.Maps.{GoMap, lookup, insert, delete}
use yunt.Jmap.Dispatcher.Values.{
  Json, text, object, end, field, as_map, fields_of, PathError, Extracted, extracted, failed,
  extract_path,
}

pub record Invocation : Type 0 where
  pub name : String
  pub args : Json
  pub call_id : String

pub record ResultReference : Type 0 where
  pub result_of : String
  pub name : String
  pub path : String

pub record MethodError : Type 0 where
  pub kind : String
  pub description : String

-- `ToInvocation`; an empty description is left out.
abbrev pub error_fields : MethodError → Json
error_fields e = object (
    field "type" (text e.kind)
      (if str_eq e.description "" then end else field "description" (text e.description) end))

abbrev pub to_invocation : MethodError → String → Invocation
to_invocation e call_id = record { name = "error"; args = error_fields e; call_id = call_id }

pub data RefError : Type 0 where
  both_present : String → RefError
  invalid_reference : String → RefError
  result_missing : String → RefError
  extraction_failed : String → PathError → RefError

-- One step of the loop over the keys: nothing to do, the map with the value in place, or an error.
pub data Visited : Type 0 where
  skipped : Visited
  substituted : GoMap Json → Visited
  refused : RefError → Visited

pub data Resolved : Type 0 where
  resolved : Json → Resolved
  unresolved : RefError → Resolved

-- `strings.HasPrefix(key, "#")` with `key[1:]`
unfoldable pub target_of : String → Option String
target_of String.[] = none
target_of (String.◌∷◌ c s) = if code c == b'#' then some s else none

module _ (decode : Json → Option ResultReference) where
  unfoldable pub put : String → String → String → Extracted Json → GoMap Json → Visited
  put key target path (failed e) m = refused (extraction_failed path e)
  put key target path (extracted v) m = substituted (insert target v (delete key m))

  unfoldable pub from_result :
      String → String → ResultReference → Option Json → GoMap Json → Visited
  unfolding put
  from_result key target ref none m = refused (result_missing ref.result_of)
  from_result key target ref (some prev) m = put key target ref.path (extract_path prev ref.path) m

  unfoldable pub referred :
      GoMap Json → String → String → Option ResultReference → GoMap Json → Visited
  unfolding from_result
  referred results key target none m = refused (invalid_reference key)
  referred results key target (some ref) m =
      from_result key target ref (lookup ref.result_of results) m

  -- `plain` is what stands under the key without its `#`.
  unfoldable pub unless_plain :
      GoMap Json → String → String → Json → Option Json → GoMap Json → Visited
  unfolding referred
  unless_plain results key target val (some plain) m = refused (both_present key)
  unless_plain results key target val none m = referred results key target (decode val) m

  unfoldable pub visited : GoMap Json → String → Option String → Option Json → GoMap Json → Visited
  unfolding unless_plain
  visited results key none found m = skipped
  visited results key (some target) none m = skipped
  visited results key (some target) (some val) m =
      unless_plain results key target val (lookup target m) m

  -- A key that is no longer in the map is not visited.
  unfoldable pub visit : GoMap Json → String → GoMap Json → Visited
  unfolding visited target_of
  visit results key m = visited results key (target_of key) (lookup key m) m

  unfoldable pub resolve_next :
      (Bool → GoMap Json → Resolved) → Bool → GoMap Json → Visited → Resolved
  resolve_next next done m skipped = next done m
  resolve_next next done m (substituted m') = next true m'
  resolve_next next done m (refused e) = unresolved e

  -- The loop, with the flag `resolved` and the arguments as they came.
  unfoldable pub resolve_keys : GoMap Json → Json → List String → Bool → GoMap Json → Resolved
  unfolding visit
  resolve_keys results args [] false m = resolved args
  resolve_keys results args [] true m = resolved (object (fields_of m))
  resolve_keys results args (key ∷ keys) done m =
      resolve_next (resolve_keys results args keys) done m (visit results key m)

  -- The arguments that are no object go on as they are.
  unfoldable pub resolve_map : GoMap Json → Json → List String → Option (GoMap Json) → Resolved
  unfolding resolve_keys
  resolve_map results args keys none = resolved args
  resolve_map results args keys (some m) = resolve_keys results args keys false m

  unfoldable pub resolve_result_refs : GoMap Json → Json → List String → Resolved
  unfolding resolve_map as_map
  resolve_result_refs results args keys = resolve_map results args keys (as_map args)
