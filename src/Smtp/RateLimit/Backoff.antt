-- ===== src/Smtp/RateLimit/Backoff.antt =====
-- The delay of an address that keeps running into the limits.
use Prim.Native.Nat.{min}
use yunt.Prelude.{
  ℕ, zero, suc, ap, ◌∙◌, ◌+◌, ◌*◌, ◌^◌, ◌≤◌, ◌<◌, ◌≡◌, refl, String, Bool, true, ◌&&◌, some, arith,
  ltb, ◌==◌, if◌then◌else◌, ==_iff,
}
use native.Mathlib.Decide.{dec_lt}
use yunt.Prelude.Maps.{lookup}
use yunt.Smtp.Window.{second, in_window}
use yunt.Smtp.RateLimit.{RateLimiter, backoff_word, get_backoff, apply_backoff}

-- The test `p` at `from` and the numbers after it, `span` in all.
holds_along : (ℕ → Bool) → ℕ → ℕ → Bool
holds_along p from zero = true
holds_along p from (suc span) = let later = holds_along p (from + 1) span in p from && later

holds_along-at :
    (p : ℕ → Bool) (from span k : ℕ)
    → from ≤ k
    → k < from + span
    → holds_along p from span ≡ true
    → p k ≡ true
unfolding holds_along
holds_along-at p from zero k low high h = absurd (omega arith)
holds_along-at p from (suc span) k low high h = elim (dec_lt from k) [
  | yes l ↦ holds_along-at p (from + 1) span k (omega arith) (omega arith) (ground arith)
  | no l ↦ let here : p from ≡ true = ground arith in ap p (omega arith) ∙ here
]

abbrev clipped : ℕ → Bool
clipped k =
    (if ltb (30 * second) (backoff_word (suc k)) && ltb (backoff_word (suc k)) (2 ^ 63)
      then 30 * second
      else backoff_word (suc k))
    == min (2 ^ k * second) (30 * second)

clipped_table : holds_along clipped 0 34 ≡ true
unfolding holds_along backoff_word
clipped_table = refl

-- At the first to the thirty-fourth violation of a running window, the delay doubles from one
-- second and stops at thirty.
get_backoff_doubles :
    (rl : RateLimiter) (ip : String) (now k end : ℕ)
    → in_window now (lookup ip rl.violations) ≡ some (record { count = suc k; window_end = end })
    → k < 34
    → get_backoff now ip rl ≡ min (2 ^ k * second) (30 * second)
unfolding get_backoff
get_backoff_doubles rl ip now k end h lt =
    rw (h, get_backoff)
      ((==_iff _ _).0 (holds_along-at clipped 0 34 k (omega arith) lt clipped_table))

abbrev vanished : ℕ → Bool
vanished k = backoff_word (56 + k) == 0

zero_table : holds_along vanished 0 9 ≡ true
unfolding holds_along backoff_word
zero_table = refl

backoff_word_vanishes : (k : ℕ) → backoff_word (56 + k) ≡ 0
backoff_word_vanishes k = elim (dec_lt k 9) [
  | yes h ↦ (==_iff _ _).0 (holds_along-at vanished 0 9 k (omega arith) h zero_table)
  | no h ↦ unfold backoff_word in ground arith
]

-- From the fifty-sixth violation of a running window on, the shift has left the word and there is
-- no delay.
pub get_backoff_wears_off :
    (rl : RateLimiter) (ip : String) (now k end : ℕ)
    → in_window now (lookup ip rl.violations) ≡ some (record { count = 56 + k; window_end = end })
    → get_backoff now ip rl ≡ 0
unfolding get_backoff
get_backoff_wears_off rl ip now k end h = rw (h, get_backoff) (rw (backoff_word_vanishes k))

-- Whatever the count, a violator sleeps at most thirty seconds.
apply_backoff_bound :
    (rl : RateLimiter) (ip : String) (now later : ℕ)
    → (apply_backoff now later ip rl).1 ≤ 30 * second
unfolding apply_backoff
apply_backoff_bound rl ip now later = ground arith
