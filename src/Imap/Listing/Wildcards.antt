-- ===== src/Imap/Listing/Wildcards.antt =====
-- What the wildcards of LIST match.
use yunt.Prelude.{
  ℕ, ◌≡◌, refl, ap, ◌∙◌, ◌↔◌, inl, inr, Bool, true, false, not, ◌&&◌, [], ◌∷◌, ◌++◌, arith, ◌==◌,
  Bool-cases, ==_iff,
}
use yunt.Imap.Listing.{Bytes, mailbox_hierarchy_separator, equal_fold_char, match_wildcard}

-- No hierarchy separator in a text.
abbrev pub is_flat : Bytes → Bool
is_flat [] = true
is_flat (n ∷ w) = not (n == mailbox_hierarchy_separator) && is_flat w

-- A star stands for any text, a percent sign for any text without the separator, and each other
-- character for itself but for the case of ASCII letters.
pub data Matches : Bytes → Bytes → Type 0 where
  ends : Matches [] []
  star :
      {c : ℕ} {name pattern : Bytes} (w rest : Bytes)
      → c ≡ b'*'
      → name ≡ w ++ rest
      → Matches rest pattern
      → Matches name (c ∷ pattern)
  percent :
      {c : ℕ} {name pattern : Bytes} (w rest : Bytes)
      → c ≡ b'%'
      → is_flat w ≡ true
      → name ≡ w ++ rest
      → Matches rest pattern
      → Matches name (c ∷ pattern)
  letter :
      {n c : ℕ} {name pattern : Bytes}
      → (c == b'*') ≡ false
      → (c == b'%') ≡ false
      → equal_fold_char n c ≡ true
      → Matches name pattern
      → Matches (n ∷ name) (c ∷ pattern)

longer_star :
    {n c : ℕ} {name pattern : Bytes}
    → c ≡ b'*'
    → Matches name (c ∷ pattern)
    → Matches (n ∷ name) (c ∷ pattern)
longer_star {n} e (star w rest e' s m) = star (n ∷ w) rest e' (ap (λ t. n ∷ t) s) m
longer_star e (percent w rest e' f s m) = absurd (omega arith)
longer_star e (letter k l f m) = absurd (ground arith)

longer_percent :
    {n c : ℕ} {name pattern : Bytes}
    → c ≡ b'%'
    → (n == mailbox_hierarchy_separator) ≡ false
    → Matches name (c ∷ pattern)
    → Matches (n ∷ name) (c ∷ pattern)
longer_percent e h (star w rest e' s m) = absurd (omega arith)
longer_percent {n} e h (percent w rest e' f s m) =
    percent (n ∷ w) rest e' (ground arith) (ap (λ t. n ∷ t) s) m
longer_percent e h (letter k l f m) = absurd (ground arith)

match_wildcard-Matches :
    (name pattern : Bytes) → match_wildcard name pattern ≡ true → Matches name pattern
unfolding match_wildcard
match_wildcard-Matches [] [] h = ends
match_wildcard-Matches (n ∷ name) [] h = cc
match_wildcard-Matches [] (c ∷ pattern) h = elim (Bool-cases (c == b'*')) [
  | inl k ↦ star [] [] ((==_iff c b'*').0 k) refl (match_wildcard-Matches [] pattern (ground arith))
  | inr k ↦ elim (Bool-cases (c == b'%')) [
    | inl l ↦
        percent [] [] ((==_iff c b'%').0 l) refl refl
          (match_wildcard-Matches [] pattern (ground arith))
    | inr l ↦ absurd (ground arith)
  ]
]
match_wildcard-Matches (n ∷ name) (c ∷ pattern) h = elim (Bool-cases (c == b'*')) [
  | inl k ↦ elim (Bool-cases (match_wildcard (n ∷ name) pattern)) [
    | inl m ↦
        star [] (n ∷ name) ((==_iff c b'*').0 k) refl (match_wildcard-Matches (n ∷ name) pattern m)
    | inr m ↦
        longer_star ((==_iff c b'*').0 k) (match_wildcard-Matches name (c ∷ pattern) (ground arith))
  ]
  | inr k ↦ elim (Bool-cases (c == b'%')) [
    | inl l ↦ elim (Bool-cases (match_wildcard (n ∷ name) pattern)) [
      | inl m ↦
          percent [] (n ∷ name) ((==_iff c b'%').0 l) refl refl
            (match_wildcard-Matches (n ∷ name) pattern m)
      | inr m ↦
          longer_percent ((==_iff c b'%').0 l) (ground arith)
            (match_wildcard-Matches name (c ∷ pattern) (ground arith))
    ]
    | inr l ↦ letter k l (ground arith) (match_wildcard-Matches name pattern (ground arith))
  ]
]

match_wildcard-star :
    (c : ℕ) (w rest pattern : Bytes)
    → c ≡ b'*'
    → match_wildcard rest pattern ≡ true
    → match_wildcard (w ++ rest) (c ∷ pattern) ≡ true
unfolding match_wildcard
match_wildcard-star c [] [] pattern e h = ground arith
match_wildcard-star c [] (n ∷ rest) pattern e h = ground arith
match_wildcard-star c (n ∷ w) rest pattern e h =
    ground (arith, match_wildcard-star c w rest pattern e h)

match_wildcard-percent :
    (c : ℕ) (w rest pattern : Bytes)
    → c ≡ b'%'
    → is_flat w ≡ true
    → match_wildcard rest pattern ≡ true
    → match_wildcard (w ++ rest) (c ∷ pattern) ≡ true
unfolding match_wildcard
match_wildcard-percent c [] [] pattern e f h = ground arith
match_wildcard-percent c [] (n ∷ rest) pattern e f h = ground arith
match_wildcard-percent c (n ∷ w) rest pattern e f h =
    ground (arith, match_wildcard-percent c w rest pattern e)

Matches-match_wildcard :
    {name pattern : Bytes} → Matches name pattern → match_wildcard name pattern ≡ true
unfolding match_wildcard
Matches-match_wildcard ends = refl
Matches-match_wildcard (star {c} {name} {pattern} w rest e s m) =
    ap (λ t. match_wildcard t (c ∷ pattern)) s
    ∙ match_wildcard-star c w rest pattern e (Matches-match_wildcard m)
Matches-match_wildcard (percent {c} {name} {pattern} w rest e f s m) =
    ap (λ t. match_wildcard t (c ∷ pattern)) s
    ∙ match_wildcard-percent c w rest pattern e f (Matches-match_wildcard m)
Matches-match_wildcard (letter k l f m) = ground (arith, Matches-match_wildcard m)

-- The matching of a name with wildcards answers true exactly if the pattern matches the name: a star
-- stands for any text, a percent sign for any text without the hierarchy separator, and each other
-- character for itself but for the case of ASCII letters.
pub match_wildcard_iff :
    (name pattern : Bytes) → (match_wildcard name pattern ≡ true) ↔ Matches name pattern
match_wildcard_iff name pattern =
    (match_wildcard-Matches name pattern, λ m. Matches-match_wildcard m)
