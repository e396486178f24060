-- ===== src/Smtp/Window.antt =====
-- The counting windows of internal/smtp/ratelimit.go: what its methods do to one of their maps from
-- a key to a count and the end of its window. Times are nanoseconds.
pub mod Laws
use yunt.Prelude.{
  ℕ, ◌+◌, ◌*◌, ◌^◌, String, Bool, ◌&&◌, Option, none, some, [], ◌∷◌, ltb, leb, if◌then◌else◌,
}
use yunt.Prelude.Maps.{GoMap, lookup, insert}

abbrev pub second : ℕ
second = 10 ^ 9

abbrev pub minute : ℕ
minute = 60 * second

abbrev pub hour : ℕ
hour = 60 * minute

pub record RateLimitEntry : Type 0 where
  pub count : ℕ
  pub window_end : ℕ

-- `!exists || now.After(entry.windowEnd)` fails: the count of the window that is still running.
abbrev pub in_window : ℕ → Option RateLimitEntry → Option RateLimitEntry
in_window now none = none
in_window now (some e) = if ltb e.window_end now then none else some e

-- A new window of the given length, or one more in the running one.
abbrev pub bumped : ℕ → ℕ → Option RateLimitEntry → RateLimitEntry
bumped span now none = record { count = 1; window_end = now + span }
bumped span now (some e) = record e { count = e.count + 1 }

unfoldable pub bump : ℕ → ℕ → String → GoMap RateLimitEntry → GoMap RateLimitEntry
bump span now k m = insert k (bumped span now (in_window now (lookup k m))) m

-- The count that a check reads: none where the window is over.
unfoldable pub current : ℕ → String → GoMap RateLimitEntry → ℕ
current now k m = elim (in_window now (lookup k m)) [ none ↦ 0 | some e ↦ e.count ]

-- `limit > 0 && count >= limit`
abbrev pub over : ℕ → ℕ → Bool
over limit n = ltb 0 limit && leb limit n

-- The loop of `cleanup` over one map.
unfoldable pub expire : ℕ → GoMap RateLimitEntry → GoMap RateLimitEntry
expire now [] = []
expire now ((k, e) ∷ m) =
    let rest = expire now m in if ltb e.window_end now then rest else (k, e) ∷ rest
