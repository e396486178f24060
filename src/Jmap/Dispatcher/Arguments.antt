-- ===== src/Jmap/Dispatcher/Arguments.antt =====
-- The arguments that are handed on to a method, and the call that is not.
use mathlib.Core.Path.{subst}
use yunt.Prelude.{ℕ, String, false, Option, none, some, List, [], ◌≡◌, refl, sym, ap, ◌∙◌}
use yunt.Prelude.Maps.{GoMap, lookup, insert, UniqueKeys, insert-UniqueKeys}
use yunt.Jmap.Dispatcher.Values.{
  Json, object, boolean, number, text, array, null, Fields, end, field, as_map, map_of, extracted,
  extract_path,
}
use yunt.Jmap.Dispatcher.Calls.{
  ResultReference, RefError, Resolved, resolved, unresolved, target_of, resolve_keys, resolve_map,
  resolve_result_refs,
}
use yunt.Jmap.Dispatcher.References.{Hands, HasArg, resolve_keys-Hands}
use yunt.Jmap.Dispatcher.Calls.{Invocation, to_invocation}
use yunt.Jmap.Dispatcher.{Dispatcher, serve, routed}
use yunt.Jmap.Dispatcher.Resolution.{
  Visits, Found, IsUnresolved, resolve_keys-Found, resolve_keys-IsUnresolved,
}

map_of-UniqueKeys : (fs : Fields) (m : GoMap Json) → UniqueKeys m → UniqueKeys (map_of fs m)
unfolding map_of
map_of-UniqueKeys end m u = u
map_of-UniqueKeys (field k v fs) m u =
    map_of-UniqueKeys fs (insert k v m) (insert-UniqueKeys k v m u)

abbrev UniqueIn : Option (GoMap Json) → Type 0
UniqueIn none = Unit
UniqueIn (some m) = UniqueKeys m

as_map-UniqueIn : (args : Json) → UniqueIn (as_map args)
unfolding as_map
as_map-UniqueIn null = tt
as_map-UniqueIn (object fs) = map_of-UniqueKeys fs [] tt
as_map-UniqueIn (boolean b) = tt
as_map-UniqueIn (number n) = tt
as_map-UniqueIn (text s) = tt
as_map-UniqueIn (array xs) = tt

module _ (decode : Json → Option ResultReference) (results : GoMap Json) (args : Json) where
  resolve_read :
      (keys : List String) {m : GoMap Json} {r : Resolved}
      → as_map args ≡ some m
      → resolve_result_refs decode results args keys ≡ r
      → resolve_keys decode results args keys false m ≡ r
  unfolding resolve_result_refs resolve_map
  resolve_read keys read done = sym (ap (λ o. resolve_map decode results args keys o) read) ∙ done

  read-UniqueKeys : {m : GoMap Json} → as_map args ≡ some m → UniqueKeys m
  read-UniqueKeys read = subst (λ o. UniqueIn o) read (as_map-UniqueIn args)

  -- A plain argument, one whose key has no `#`, is handed on with its value, whatever the references
  -- of the call are replaced by and in whichever order the keys are visited.
  pub resolve_result_refs-keeps :
      (other : String) (val j : Json) (keys : List String)
      → HasArg other val args
      → target_of other ≡ none
      → resolve_result_refs decode results args keys ≡ resolved j
      → HasArg other val j
  resolve_result_refs-keeps other val j keys (m, read, h) plain done =
      subst (λ r. Hands decode results args other val r) (resolve_read keys read done)
        (resolve_keys-Hands decode results args other val keys false m plain read h
          (read-UniqueKeys read))

  -- A reference that is visited, to an earlier result and for a plain key, has been replaced where
  -- the arguments are handed on: they have the value that its path extracts from that result.
  pub resolve_result_refs-extracts :
      (key target : String) (val : Json) (ref : ResultReference) (prev j : Json)
      (keys : List String)
      → Visits key keys
      → target_of key ≡ some target
      → target_of target ≡ none
      → decode val ≡ some ref
      → lookup ref.result_of results ≡ some prev
      → HasArg key val args
      → resolve_result_refs decode results args keys ≡ resolved j
      → (v : Json) × (extract_path prev ref.path ≡ extracted v) × HasArg target v j
  resolve_result_refs-extracts key target val ref prev j keys at ht plain hd hr (m, read, h) done =
      subst (λ r. Found decode results args target ref.path prev r) (resolve_read keys read done)
        (resolve_keys-Found decode results args key target val ref prev keys false m at ht plain hd
          hr h (read-UniqueKeys read))

  -- A reference that is visited and that names no earlier result stops the call.
  dangling :
      (key target : String) (val : Json) (ref : ResultReference) (keys : List String)
      → Visits key keys
      → target_of key ≡ some target
      → decode val ≡ some ref
      → lookup ref.result_of results ≡ none
      → HasArg key val args
      → IsUnresolved decode results args (resolve_result_refs decode results args keys)
  dangling key target val ref keys at ht hd hr (m, read, h) =
      subst (λ r. IsUnresolved decode results args r) (resolve_read keys read refl)
        (resolve_keys-IsUnresolved decode results args key target val ref keys false m at ht hd hr h
          (read-UniqueKeys read))

module _ {S : Type 0} (decode : Json → Option ResultReference) (describe : RefError → String)
    (too_many : ℕ → ℕ → String) (keys : ℕ → List String) where
  routed-unresolved :
      (d : Dispatcher S) (call : Invocation) (results : GoMap Json) (j : Json) (s : S)
      (r : Resolved)
      → IsUnresolved decode results j r
      → (e : RefError) × (routed decode describe too_many keys d call results r s ≡ (
        results,
        to_invocation
            (record { kind = "invalidResultReference"; description = describe e })
            call.call_id,
        s,
      ))
  unfolding routed
  routed-unresolved d call results j s (resolved k) h = absurd h
  routed-unresolved d call results j s (unresolved e) h = (e, refl)

  -- A call with a reference that is visited and that names no earlier result is answered with the
  -- error `invalidResultReference` under its id. No method runs: the state stays, and so do the
  -- results that later calls can refer to.
  pub serve-dangling :
      (d : Dispatcher S) (i : ℕ) (call : Invocation) (results : GoMap Json) (s : S)
      (key target : String) (val : Json) (ref : ResultReference)
      → Visits key (keys i)
      → target_of key ≡ some target
      → decode val ≡ some ref
      → lookup ref.result_of results ≡ none
      → HasArg key val call.args
      → (e : RefError) × (serve decode describe too_many keys d i call results s ≡ (
        results,
        to_invocation
            (record { kind = "invalidResultReference"; description = describe e })
            call.call_id,
        s,
      ))
  unfolding serve
  serve-dangling d i call results s key target val ref at ht hd hr h =
      routed-unresolved d call results call.args s _
        (dangling decode results call.args key target val ref (keys i) at ht hd hr h)
