-- ===== src/Imap/Expunge/Sorting.antt =====
-- The exchange sort of the sequence numbers.
use yunt.Prelude.{
  ℕ, zero, suc, ◌≤◌, ◌<◌, ◌≡◌, refl, ◌∙◌, ap, List, [], ◌∷◌, arith, length, ltb, ◌==◌,
  if◌then◌else◌,
}
use yunt.Imap.Expunge.{pass_desc, sort_from, sort_uint32_desc}

-- Nothing on the list is above `x`.
abbrev pub AllLe : ℕ → List ℕ → Type 0
AllLe x [] = Unit
AllLe x (y ∷ ys) = (y ≤ x) × AllLe x ys

abbrev pub IsDescending : List ℕ → Type 0
IsDescending [] = Unit
IsDescending (x ∷ xs) = AllLe x xs × IsDescending xs

pass_desc-top :
    (x : ℕ) (ys : List ℕ) → (x ≤ (pass_desc x ys).0) × AllLe (pass_desc x ys).0 (pass_desc x ys).1
unfolding pass_desc
pass_desc-top x [] = (omega arith, tt)
pass_desc-top x (y ∷ ys) = ground (arith, pass_desc-top (if ltb x y then y else x) ys)

length-pass_desc : (x : ℕ) (ys : List ℕ) → length (pass_desc x ys).1 ≡ length ys
unfolding pass_desc
length-pass_desc x [] = refl
length-pass_desc x (y ∷ ys) = ap suc (length-pass_desc (if ltb x y then y else x) ys)

-- How often a number stands on a list.
abbrev pub count : ℕ → List ℕ → ℕ
count a [] = 0
count a (x ∷ xs) = if a == x then suc (count a xs) else count a xs

count-pass_desc :
    (a x : ℕ) (ys : List ℕ) → count a ((pass_desc x ys).0 ∷ (pass_desc x ys).1) ≡ count a (x ∷ ys)
unfolding pass_desc
count-pass_desc a x [] = refl
count-pass_desc a x (y ∷ ys) = ground (arith, count-pass_desc a (if ltb x y then y else x) ys)

count-sort_from : (n a : ℕ) (s : List ℕ) → count a (sort_from n s) ≡ count a s
unfolding sort_from
count-sort_from zero a s = refl
count-sort_from (suc n) a [] = refl
count-sort_from (suc n) a (x ∷ xs) =
    ground (arith, count-pass_desc a x xs, count-sort_from n a (pass_desc x xs).1)

count_above : (x a : ℕ) (t : List ℕ) → AllLe x t → x < a → count a t ≡ 0
count_above x a [] b h = refl
count_above x a (y ∷ t) b h = ground (arith, count_above x a t b.1 h)

AllLe-of-count : (x : ℕ) (s : List ℕ) → ((a : ℕ) → x < a → count a s ≡ 0) → AllLe x s
AllLe-of-count x [] h = tt
AllLe-of-count x (y ∷ s) h =
    (ground (arith, h y), AllLe-of-count x s (λ a k. ground (arith, h a k)))

AllLe-sort_from : (n x : ℕ) (s : List ℕ) → AllLe x s → AllLe x (sort_from n s)
AllLe-sort_from n x s b =
    AllLe-of-count x (sort_from n s) (λ a k. count-sort_from n a s ∙ count_above x a s b k)

sort_from-IsDescending : (n : ℕ) (s : List ℕ) → length s ≤ n → IsDescending (sort_from n s)
unfolding sort_from
sort_from-IsDescending zero [] h = tt
sort_from-IsDescending zero (x ∷ xs) h = absurd (omega arith)
sort_from-IsDescending (suc n) [] h = tt
sort_from-IsDescending (suc n) (x ∷ xs) h = (
  AllLe-sort_from n (pass_desc x xs).0 (pass_desc x xs).1 (pass_desc-top x xs).1,
  sort_from-IsDescending n (pass_desc x xs).1 (omega (arith, length-pass_desc x xs)),
)

-- The sort leaves the numbers in descending order, each as often as before.
sort_uint32_desc_sorts :
    (s : List ℕ)
    → IsDescending (sort_uint32_desc s) × ((a : ℕ) → count a (sort_uint32_desc s) ≡ count a s)
unfolding sort_uint32_desc
sort_uint32_desc_sorts s =
    (sort_from-IsDescending (length s) s (omega arith), λ a. count-sort_from (length s) a s)
