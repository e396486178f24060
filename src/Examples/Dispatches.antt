-- ===== src/Examples/Dispatches.antt =====
-- The dispatcher of internal/jmap at concrete requests.
use yunt.Prelude.{ℕ, String, Option, some, List, [], ◌∷◌, ◌≡◌, refl}
use yunt.Prelude.Maps.{GoMap, lookup, insert, delete}
use yunt.Jmap.Dispatcher.Values.{
  null, Json, text, array, object, nil, cons, end, field, extracted, as_map, map_of, extract_path,
  extract_path_parts, at_key, value_at, trim_slash, split_path, fields_of,
}
use yunt.Jmap.Dispatcher.Calls.{
  Invocation, ResultReference, RefError, to_invocation, target_of, resolve_result_refs, resolve_map,
  resolve_keys, resolve_next, visit, visited, unless_plain, referred, from_result, put,
}
use yunt.Jmap.Dispatcher.{Dispatcher, Request, done, serve, register, new_dispatcher, Outcome}
use yunt.Jmap.Dispatcher.Resolution.{here}
use yunt.Jmap.Dispatcher.References.{HasArg}
use yunt.Jmap.Dispatcher.Arguments.{resolve_result_refs-extracts, serve-dangling}
use yunt.Jmap.Dispatcher.Paths.{extract-star}
use yunt.Prelude.Int.{pos}

-- Every reference reads as one to the first item of the call `a`.
abbrev decode : Json → Option ResultReference
decode j = some (record { result_of = "a"; name = "Email/query"; path = "/id" })

abbrev describe : RefError → String
describe e = "unresolved"

abbrev too_many : ℕ → ℕ → String
too_many n limit = "too many"

abbrev keys : ℕ → List String
keys i = "#ids" ∷ []

abbrev with_ref : Json
with_ref = object (field "#ids" (text "reference") end)

abbrev call : String → Json → Invocation
call call_id args = record { name = "Email/get"; args = args; call_id = call_id }

abbrev email_get : Json → ℕ → ℕ × Outcome
email_get args n = (n, done (object (field "id" (text "m1") end)))

abbrev one_method : Dispatcher ℕ
one_method = register "Email/get" email_get (new_dispatcher (pos 2))

abbrev two_calls : Request
two_calls = record {
  method_calls = call "a" (object end) ∷ call "b" with_ref ∷ [];
  created_ids = [];
}

abbrev earlier : GoMap Json
earlier = ("a", object (field "id" (text "m1") end)) ∷ []

read_with_ref : HasArg "#ids" (text "reference") with_ref
unfolding as_map map_of insert lookup
read_with_ref = (("#ids", text "reference") ∷ [], refl, refl)

resolve_result_refs-extracts_example :
    (v : Json) × (extract_path (object (field "id" (text "m1") end)) "/id" ≡ extracted v)
    × HasArg "ids" v (object (field "ids" (text "m1") end))
unfolding target_of lookup insert delete resolve_result_refs resolve_map resolve_keys resolve_next
    visit visited unless_plain referred from_result put as_map map_of extract_path
    extract_path_parts at_key value_at trim_slash split_path fields_of
resolve_result_refs-extracts_example =
    resolve_result_refs-extracts decode earlier with_ref "#ids" "ids" (text "reference")
      (record { result_of = "a"; name = "Email/query"; path = "/id" })
      (object (field "id" (text "m1") end)) (object (field "ids" (text "m1") end)) ("#ids" ∷ [])
      here refl refl refl refl read_with_ref refl

serve-dangling_example :
    (e : RefError) × (serve decode describe too_many keys one_method 0 (call "b" with_ref) [] 7 ≡ (
      [],
      to_invocation (record { kind = "invalidResultReference"; description = describe e }) "b",
      7,
    ))
unfolding target_of lookup
serve-dangling_example =
    serve-dangling decode describe too_many keys one_method 0 (call "b" with_ref) [] 7 "#ids" "ids"
      (text "reference") (record { result_of = "a"; name = "Email/query"; path = "/id" }) here refl
      refl refl read_with_ref

extract-star_example :
    (extract_path_parts ("*" ∷ "id" ∷ []) (
        array (
          cons
            (object (field "id" (text "m1") end))
            (cons (object (field "id" (text "m2") end)) nil)))
      ≡ extracted (array (cons (text "m1") (cons (text "m2") nil))))
    × (extract_path_parts ("*" ∷ "id" ∷ []) (array nil) ≡ extracted null)
unfolding extract_path_parts at_key value_at as_map map_of insert lookup
extract-star_example =
    extract-star ("id" ∷ []) (object (field "id" (text "m1") end)) (text "m1")
      (cons (object (field "id" (text "m2") end)) nil) (cons (text "m2") nil)
      (refl, tt, (refl, tt, tt))
