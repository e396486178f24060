-- ===== src/Smtp/Address.antt =====
-- The addresses of SMTP commands: `extractAddress` and `isValidEmailFormat` of
-- internal/smtp/session.go. A text is the list of its code points.
pub mod Laws
use yunt.Prelude.{
  ℕ, zero, suc, ◌+◌, ◌-◌, Bool, true, false, not, ◌&&◌, ◌||◌, Option, none, some, List, [], ◌∷◌,
  leb, ◌==◌, if◌then◌else◌, length, take, drop,
}

abbrev pub Text : Type 0
Text = List ℕ

-- `unicode.IsSpace`
abbrev pub is_space : ℕ → Bool
is_space c =
    leb 9 c && leb c 13
    || c == 32
    || c == 0x85
    || c == 0xa0
    || c == 0x1680
    || leb 0x2000 c && leb c 0x200a
    || c == 0x2028
    || c == 0x2029
    || c == 0x202f
    || c == 0x205f
    || c == 0x3000

unfoldable pub trim_left : Text → Text
trim_left [] = []
trim_left (c ∷ s) = let rest = trim_left s in if is_space c then rest else c ∷ s

-- The text without the spaces at its end.
unfoldable pub trim_right : Text → Text
trim_right [] = []
trim_right (c ∷ s) = elim (trim_right s) [
  | [] ↦ if is_space c then [] else c ∷ []
  | d ∷ r ↦ c ∷ d ∷ r
]

-- `strings.TrimSpace`
unfoldable pub trim_space : Text → Text
unfolding trim_left trim_right
trim_space s = trim_right (trim_left s)

starts_with : ℕ → Text → Bool
starts_with c [] = false
starts_with c (d ∷ s) = c == d

ends_with : ℕ → Text → Bool
ends_with c [] = false
ends_with c (d ∷ []) = c == d
ends_with c (d ∷ e ∷ s) = ends_with c (e ∷ s)

-- `addr[1 : len(addr)-1]`, `none` where Go panics.
abbrev inner : Text → Option Text
inner s = if leb 1 (length s - 1) then some (take (length s - 2) (drop 1 s)) else none

unfoldable pub extract_address : Text → Option Text
unfolding trim_space starts_with ends_with
extract_address addr =
    let s = trim_space addr in if starts_with b'<' s && ends_with b'>' s then inner s else some s

-- `strings.Index` of one character
unfoldable pub index : ℕ → Text → Option ℕ
index c [] = none
index c (d ∷ s) =
    if d == c then some 0 else elim (index c s) [ none ↦ none | some i ↦ some (suc i) ]

-- `strings.Count` of one character
unfoldable pub count : ℕ → Text → ℕ
count c [] = 0
count c (d ∷ s) = if d == c then suc (count c s) else count c s

-- `strings.ContainsAny(s, " \t\r\n")`
unfoldable pub contains_invalid : Text → Bool
contains_invalid [] = false
contains_invalid (c ∷ s) = c == 32 || c == 9 || c == 13 || c == 10 || contains_invalid s

abbrev is_empty : Text → Bool
is_empty [] = true
is_empty (c ∷ s) = false

-- What follows the search for the first `@`, at its index.
split_at : Text → ℕ → Bool
split_at email i =
    if i == 0 || i == length email - 1
    then false
    else if not (count b'@' email == 1)
    then false
    else if is_empty (take i email) || is_empty (drop (i + 1) email)
    then false
    else not (contains_invalid email)

unfoldable pub is_valid_email_format : Text → Bool
unfolding index count contains_invalid split_at
is_valid_email_format email =
    if is_empty email
    then false
    else elim (index b'@' email) [ none ↦ false | some i ↦ split_at email i ]
