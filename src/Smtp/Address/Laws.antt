-- ===== src/Smtp/Address/Laws.antt =====
-- Which addresses are well-formed, and that taking one out of its brackets never fails.
use yunt.Prelude.{
  ℕ, zero, suc, ◌+◌, ◌-◌, ◌≤◌, ◌<◌, ◌≡◌, refl, ◌↔◌, ap, sym, ◌∙◌, true, false, ◌&&◌, Option, some,
  [], ◌∷◌, ◌++◌, arith, ◌==◌, if◌then◌else◌, length, length-append, take, drop, Bool-cases,
  Option-cases, inl, inr,
}
use yunt.Smtp.Address.{
  Text, is_empty, inner, trim_space, starts_with, ends_with, extract_address, index, count,
  contains_invalid, split_at, is_valid_email_format,
}

-- A local part and a domain, neither empty, with no `@` and no blank in them.
pub record IsAddress (email : Text) : Type 0 where
  pub local : Text
  pub domain : Text
  pub parts : email ≡ local ++ b'@' ∷ domain
  pub local_some : 0 < length local
  pub domain_some : 0 < length domain
  pub local_plain : count b'@' local ≡ 0
  pub domain_plain : count b'@' domain ≡ 0
  pub no_blank : contains_invalid email ≡ false

index-take :
    (c : ℕ) (s : Text) (i : ℕ)
    → index c s ≡ some i
    → (s ≡ take i s ++ c ∷ drop (suc i) s) × (count c (take i s) ≡ 0) × (i < length s)
unfolding index count
index-take c [] i h = absurd (ground arith)
index-take c (d ∷ s) zero h = (ground arith, refl, omega arith)
index-take c (d ∷ s) (suc i) h = elim (Bool-cases (d == c)) [
  | inl e ↦ absurd (ground arith)
  | inr e ↦
      let h' : index c s ≡ some i = ground arith in
      let (p, q, r) = index-take c s i h' in (ap (λ l. d ∷ l) p, rw e q, omega arith)
]

count-append : (c : ℕ) (s t : Text) → count c (s ++ t) ≡ count c s + count c t
unfolding count
count-append c [] t = omega arith
count-append c (d ∷ s) t = ground (arith, count-append c s t)

index-append : (c : ℕ) (s t : Text) → count c s ≡ 0 → index c (s ++ c ∷ t) ≡ some (length s)
unfolding index count
index-append c [] t h = ground arith
index-append c (d ∷ s) t h = ground (arith, index-append c s t)

take-append : (s t : Text) → take (length s) (s ++ t) ≡ s
take-append [] t = refl
take-append (c ∷ s) t = ap (λ l. c ∷ l) (take-append s t)

drop-append : (c : ℕ) (s t : Text) → drop (suc (length s)) (s ++ c ∷ t) ≡ t
drop-append c [] t = refl
drop-append c (d ∷ s) t = drop-append c s t

some-length : (s : Text) → is_empty s ≡ false → 0 < length s
some-length [] h = cc
some-length (c ∷ s) h = omega arith

split_at-IsAddress :
    (email : Text) (i : ℕ) → index b'@' email ≡ some i → split_at email i ≡ true → IsAddress email
unfolding split_at
split_at-IsAddress email i e h =
    let (p, q, r) = index-take b'@' email i e in
    let n : i + 1 ≡ suc i = omega arith in
    let total = ap (count b'@') p ∙ count-append b'@' (take i email) (b'@' ∷ drop (suc i) email) in
    record {
      local = take i email;
      domain = drop (suc i) email;
      parts = p;
      local_some = some-length (take i email) (ground arith);
      domain_some = some-length (drop (suc i) email) (rw (← n) (ground arith));
      local_plain = q;
      domain_plain = unfold count in ground arith;
      no_blank = ground arith;
    }

valid→IsAddress : (email : Text) → is_valid_email_format email ≡ true → IsAddress email
unfolding is_valid_email_format
valid→IsAddress email h = elim (Option-cases (index b'@' email)) [
  | inl e ↦ absurd (ground arith)
  | inr (i, e) ↦ split_at-IsAddress email i e (ground arith)
]

starts-nonempty : (s : Text) → starts_with b'<' s ≡ true → ends_with b'>' s ≡ true → 2 ≤ length s
unfolding starts_with ends_with
starts-nonempty [] h k = cc
starts-nonempty (c ∷ []) h k = ground arith
starts-nonempty (c ∷ d ∷ s) h k = omega arith

unbracket : Text → Option Text
unbracket s = if starts_with b'<' s && ends_with b'>' s then inner s else some s

unbracket_total : (s : Text) → (a : Text) × (unbracket s ≡ some a)
unfolding unbracket
unbracket_total s = elim (Bool-cases (starts_with b'<' s && ends_with b'>' s)) [
  | inl e ↦ (take (length s - 2) (drop 1 s), ground (arith, starts-nonempty s))
  | inr e ↦ (s, rw e)
]

-- The slice that takes the brackets off is always in range: the address is taken out of every
-- argument.
extract_address_total : (addr : Text) → (a : Text) × (extract_address addr ≡ some a)
unfolding extract_address
extract_address_total addr = unfold unbracket in unbracket_total (trim_space addr)

empty_of-length : (s : Text) → 0 < length s → is_empty s ≡ false
empty_of-length [] h = absurd (omega arith)
empty_of-length (c ∷ s) h = refl

split_at-append :
    (l d : Text)
    → 0 < length l
    → 0 < length d
    → count b'@' l ≡ 0
    → count b'@' d ≡ 0
    → contains_invalid (l ++ b'@' ∷ d) ≡ false
    → split_at (l ++ b'@' ∷ d) (length l) ≡ true
unfolding split_at
split_at-append l d hl hd cl cd clean =
    let n : length l + 1 ≡ suc (length l) = omega arith in
    let one : count b'@' (b'@' ∷ d) ≡ suc (count b'@' d) = unfold count in refl in
    rw n (
      ground (
        arith,
        one,
        count-append b'@' l (b'@' ∷ d),
        length-append l (b'@' ∷ d),
        take-append l (b'@' ∷ d),
        drop-append b'@' l d,
        empty_of-length l hl,
        empty_of-length d hd,
      ))

valid-append :
    (l d : Text)
    → index b'@' (l ++ b'@' ∷ d) ≡ some (length l)
    → split_at (l ++ b'@' ∷ d) (length l) ≡ true
    → is_empty (l ++ b'@' ∷ d) ≡ false
    → is_valid_email_format (l ++ b'@' ∷ d) ≡ true
unfolding is_valid_email_format
valid-append l d at done some_text = rw (some_text, at) done

IsAddress→valid : (email : Text) → IsAddress email → is_valid_email_format email ≡ true
IsAddress→valid email v =
    let l = v.local in
    let d = v.domain in
    ap is_valid_email_format v.parts
    ∙ valid-append l d (index-append b'@' l d v.local_plain)
        (split_at-append l d v.local_some v.domain_some v.local_plain v.domain_plain
          (ap contains_invalid (sym v.parts) ∙ v.no_blank))
        (empty_of-length (l ++ b'@' ∷ d) (omega (arith, length-append l (b'@' ∷ d))))

-- The check of the format accepts a text exactly if it is a local part and a domain about one `@`,
-- neither of them empty or with another `@`, and no blank, tab or line end anywhere.
pub is_valid_email_format_iff :
    (email : Text) → (is_valid_email_format email ≡ true) ↔ IsAddress email
is_valid_email_format_iff email = (valid→IsAddress email, IsAddress→valid email)
