-- ===== src/Imap/Copy/Sorting.antt =====
-- The ascending exchange sort of the sequence numbers.
use yunt.Prelude.{
  ℕ, zero, suc, ◌≤◌, ◌<◌, ◌≡◌, refl, ◌∙◌, ap, List, [], ◌∷◌, arith, length, ltb, if◌then◌else◌,
}
use yunt.Imap.Copy.{pass_asc, sort_asc_from, sort_uint32}
use yunt.Imap.Expunge.Sorting.{count}

-- Nothing on the list is below `x`.
abbrev AllGe : ℕ → List ℕ → Type 0
AllGe x [] = Unit
AllGe x (y ∷ ys) = (x ≤ y) × AllGe x ys

abbrev pub IsAscending : List ℕ → Type 0
IsAscending [] = Unit
IsAscending (x ∷ xs) = AllGe x xs × IsAscending xs

pass_asc-least :
    (x : ℕ) (ys : List ℕ) → ((pass_asc x ys).0 ≤ x) × AllGe (pass_asc x ys).0 (pass_asc x ys).1
unfolding pass_asc
pass_asc-least x [] = (omega arith, tt)
pass_asc-least x (y ∷ ys) = ground (arith, pass_asc-least (if ltb y x then y else x) ys)

length-pass_asc : (x : ℕ) (ys : List ℕ) → length (pass_asc x ys).1 ≡ length ys
unfolding pass_asc
length-pass_asc x [] = refl
length-pass_asc x (y ∷ ys) = ap suc (length-pass_asc (if ltb y x then y else x) ys)

count-pass_asc :
    (a x : ℕ) (ys : List ℕ) → count a ((pass_asc x ys).0 ∷ (pass_asc x ys).1) ≡ count a (x ∷ ys)
unfolding pass_asc
count-pass_asc a x [] = refl
count-pass_asc a x (y ∷ ys) = ground (arith, count-pass_asc a (if ltb y x then y else x) ys)

count-sort_asc_from : (n a : ℕ) (s : List ℕ) → count a (sort_asc_from n s) ≡ count a s
unfolding sort_asc_from
count-sort_asc_from zero a s = refl
count-sort_asc_from (suc n) a [] = refl
count-sort_asc_from (suc n) a (x ∷ xs) =
    ground (arith, count-pass_asc a x xs, count-sort_asc_from n a (pass_asc x xs).1)

count_beneath : (x a : ℕ) (t : List ℕ) → AllGe x t → a < x → count a t ≡ 0
count_beneath x a [] b h = refl
count_beneath x a (y ∷ t) b h = ground (arith, count_beneath x a t b.1 h)

AllGe-of-count : (x : ℕ) (s : List ℕ) → ((a : ℕ) → a < x → count a s ≡ 0) → AllGe x s
AllGe-of-count x [] h = tt
AllGe-of-count x (y ∷ s) h =
    (ground (arith, h y), AllGe-of-count x s (λ a k. ground (arith, h a k)))

AllGe-sort_asc_from : (n x : ℕ) (s : List ℕ) → AllGe x s → AllGe x (sort_asc_from n s)
AllGe-sort_asc_from n x s b =
    AllGe-of-count x (sort_asc_from n s)
      (λ a k. count-sort_asc_from n a s ∙ count_beneath x a s b k)

sort_asc_from-IsAscending : (n : ℕ) (s : List ℕ) → length s ≤ n → IsAscending (sort_asc_from n s)
unfolding sort_asc_from
sort_asc_from-IsAscending zero [] h = tt
sort_asc_from-IsAscending zero (x ∷ xs) h = absurd (omega arith)
sort_asc_from-IsAscending (suc n) [] h = tt
sort_asc_from-IsAscending (suc n) (x ∷ xs) h = (
  AllGe-sort_asc_from n (pass_asc x xs).0 (pass_asc x xs).1 (pass_asc-least x xs).1,
  sort_asc_from-IsAscending n (pass_asc x xs).1 (omega (arith, length-pass_asc x xs)),
)

length-sort_asc_from : (n : ℕ) (s : List ℕ) → length (sort_asc_from n s) ≡ length s
unfolding sort_asc_from
length-sort_asc_from zero s = refl
length-sort_asc_from (suc n) [] = refl
length-sort_asc_from (suc n) (x ∷ xs) =
    ap suc (length-sort_asc_from n (pass_asc x xs).1 ∙ length-pass_asc x xs)

pub length-sort_uint32 : (s : List ℕ) → length (sort_uint32 s) ≡ length s
unfolding sort_uint32
length-sort_uint32 s = length-sort_asc_from (length s) s

-- The ascending sort leaves the numbers in ascending order, each as often as before.
pub sort_uint32_sorts :
    (s : List ℕ) → IsAscending (sort_uint32 s) × ((a : ℕ) → count a (sort_uint32 s) ≡ count a s)
unfolding sort_uint32
sort_uint32_sorts s =
    (sort_asc_from-IsAscending (length s) s (omega arith), λ a. count-sort_asc_from (length s) a s)
