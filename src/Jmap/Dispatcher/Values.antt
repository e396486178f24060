-- ===== src/Jmap/Dispatcher/Values.antt =====
-- JSON values, and `extractPath` of internal/jmap/dispatcher.go.
use Prim.Native.Char.{Char, code}
use yunt.Prelude.{
  String, Bool, Option, none, some, List, [], ◌∷◌, ◌==◌, ◌||◌, if◌then◌else◌, str_eq,
}
use yunt.Prelude.Maps.{GoMap, lookup, insert}

mutual
  pub data Json : Type 0 where
    null : Json
    boolean : Bool → Json
    number text : String → Json
    array : Items → Json
    object : Fields → Json

  pub data Items : Type 0 where
    nil : Items
    cons : Json → Items → Items

  pub data Fields : Type 0 where
    end : Fields
    field : String → Json → Fields → Fields

-- `json.Unmarshal` into a map: the last of two fields with one name counts, and `null` leaves the map
-- empty.
unfoldable pub map_of : Fields → GoMap Json → GoMap Json
map_of end m = m
map_of (field k v fs) m = map_of fs (insert k v m)

unfoldable pub as_map : Json → Option (GoMap Json)
unfolding map_of
as_map null = some []
as_map (object fs) = some (map_of fs [])
as_map (boolean b) = none
as_map (number n) = none
as_map (text s) = none
as_map (array xs) = none

-- `json.Unmarshal` into a slice, where `null` leaves the slice empty.
unfoldable pub as_items : Json → Option Items
as_items null = some nil
as_items (array xs) = some xs
as_items (boolean b) = none
as_items (number n) = none
as_items (text s) = none
as_items (object fs) = none

-- `json.Marshal` of a map. The order of the fields is left open.
unfoldable pub fields_of : GoMap Json → Fields
fields_of [] = end
fields_of ((k, v) ∷ m) = field k v (fields_of m)

unfoldable pub append_items : Items → Items → Items
append_items nil ys = ys
append_items (cons x xs) ys = cons x (append_items xs ys)

pub data PathError : Type 0 where
  star_on_other : PathError
  not_object key_not_found : String → PathError

pub data Extracted (A : Type 0) : Type 0 where
  extracted : A → Extracted A
  failed : PathError → Extracted A

-- The value of one element in front of the rest: what unmarshals into a slice is spliced in.
unfoldable pub spliced : Json → Option Items → Items → Items
unfolding append_items
spliced v none rest = cons v rest
spliced v (some xs) rest = append_items xs rest

unfoldable pub splice_onto : Extracted Json → Extracted Items → Extracted Items
unfolding spliced as_items
splice_onto (failed e) rest = failed e
splice_onto (extracted v) (failed e) = failed e
splice_onto (extracted v) (extracted rest) = extracted (spliced v (as_items v) rest)

-- The loop over the elements; the first failure counts.
unfoldable pub collect : (Json → Extracted Json) → Items → Extracted Items
unfolding splice_onto
collect f nil = extracted nil
collect f (cons x xs) = splice_onto (f x) (collect f xs)

-- `json.Marshal` of the slice: the loop leaves it nil where nothing was collected, and a nil slice is
-- written as `null`.
unfoldable pub marshal_items : Items → Json
marshal_items nil = null
marshal_items (cons x xs) = array (cons x xs)

unfoldable pub marshalled : Extracted Items → Extracted Json
unfolding marshal_items
marshalled (failed e) = failed e
marshalled (extracted xs) = extracted (marshal_items xs)

unfoldable pub over_items : (Json → Extracted Json) → Option Items → Extracted Json
unfolding marshalled collect
over_items f none = failed star_on_other
over_items f (some xs) = marshalled (collect f xs)

unfoldable pub value_at : (Json → Extracted Json) → String → Option Json → Extracted Json
value_at f key none = failed (key_not_found key)
value_at f key (some v) = f v

unfoldable pub at_key : (Json → Extracted Json) → String → Option (GoMap Json) → Extracted Json
unfolding value_at
at_key f key none = failed (not_object key)
at_key f key (some m) = value_at f key (lookup key m)

unfoldable pub extract_path_parts : List String → Json → Extracted Json
unfolding over_items as_items at_key as_map
extract_path_parts [] data_ = extracted data_
extract_path_parts (key ∷ rest) data_ =
    let f = extract_path_parts rest in
    if str_eq key "*" then over_items f (as_items data_) else at_key f key (as_map data_)

-- `strings.TrimPrefix(path, "/")`
unfoldable pub trim_slash : String → String
trim_slash String.[] = String.[]
trim_slash (String.◌∷◌ c s) = if code c == b'/' then s else String.◌∷◌ c s

first_longer : Char → List String → List String
first_longer c [] = String.◌∷◌ c String.[] ∷ []
first_longer c (part ∷ parts) = String.◌∷◌ c part ∷ parts

-- `strings.Split(path, "/")`
unfoldable pub split_path : String → List String
unfolding first_longer
split_path String.[] = String.[] ∷ []
split_path (String.◌∷◌ c s) =
    let rest = split_path s in if code c == b'/' then String.[] ∷ rest else first_longer c rest

unfoldable pub extract_path : Json → String → Extracted Json
unfolding extract_path_parts trim_slash split_path
extract_path data_ path =
    if str_eq path "" || str_eq path "/"
    then extracted data_
    else extract_path_parts (split_path (trim_slash path)) data_
