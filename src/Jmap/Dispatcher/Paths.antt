-- ===== src/Jmap/Dispatcher/Paths.antt =====
-- What the wildcard of a path extracts.
use yunt.Prelude.{String, none, List, ◌∷◌, ◌≡◌, refl}
use yunt.Jmap.Dispatcher.Values.{
  Json, null, boolean, number, text, object, array, Items, nil, cons, extracted, as_items, spliced,
  splice_onto, collect, marshal_items, marshalled, over_items, extract_path_parts,
}

-- A value that is no array and not null
abbrev pub IsSingle : Json → Type 0
IsSingle null = ⊥
IsSingle (array xs) = ⊥
IsSingle (boolean b) = Unit
IsSingle (number n) = Unit
IsSingle (text s) = Unit
IsSingle (object fs) = Unit

IsSingle-as_items : (v : Json) → IsSingle v → as_items v ≡ none
unfolding as_items
IsSingle-as_items null h = absurd h
IsSingle-as_items (array xs) h = absurd h
IsSingle-as_items (boolean b) h = refl
IsSingle-as_items (number n) h = refl
IsSingle-as_items (text s) h = refl
IsSingle-as_items (object fs) h = refl

-- Element by element, the path extracts these values, each of them single.
abbrev pub Column : List String → Items → Items → Type 0
Column rest nil nil = Unit
Column rest nil (cons v vs) = ⊥
Column rest (cons x xs) nil = ⊥
Column rest (cons x xs) (cons v vs) =
    (extract_path_parts rest x ≡ extracted v) × IsSingle v × Column rest xs vs

collect-Column :
    (rest : List String) (xs vs : Items)
    → Column rest xs vs
    → collect (extract_path_parts rest) xs ≡ extracted vs
unfolding collect splice_onto spliced
collect-Column rest nil nil c = refl
collect-Column rest nil (cons v vs) c = absurd c
collect-Column rest (cons x xs) nil c = absurd c
collect-Column rest (cons x xs) (cons v vs) (h, plain, c) =
    rw (h, collect-Column rest xs vs c, IsSingle-as_items v plain) refl

-- Under `*`, where the array has elements and the rest of the path extracts from each of them a value
-- that is no array and not null, the result is the array of these values in their order. From an
-- empty array the result is null.
pub extract-star :
    (rest : List String) (x v : Json) (xs vs : Items)
    → Column rest (cons x xs) (cons v vs)
    → (extract_path_parts ("*" ∷ rest) (array (cons x xs)) ≡ extracted (array (cons v vs)))
      × (extract_path_parts ("*" ∷ rest) (array nil) ≡ extracted null)
unfolding extract_path_parts over_items marshalled marshal_items as_items
extract-star rest x v xs vs c =
    (rw (collect-Column rest (cons x xs) (cons v vs) c) refl, unfold collect in refl)
