-- ===== src/Smtp/Window/Laws.antt =====
-- What the counting windows count.
use yunt.Prelude.{
  ℕ, ◌+◌, ◌≤◌, ◌≡◌, refl, String, none, some, List, [], ◌∷◌, arith, leb, if◌then◌else◌, str_eq,
  eq_iff, length,
}
use yunt.Prelude.Maps.{GoMap, lookup, lookup-insert, UniqueKeys}
use yunt.Smtp.Window.{RateLimitEntry, in_window, bumped, bump, current, expire}

-- Other keys keep their entries.
pub lookup-bump :
    (span now : ℕ) (k j : String) (m : GoMap RateLimitEntry)
    → lookup j (bump span now k m)
      ≡ (if str_eq k j then some (bumped span now (in_window now (lookup k m))) else lookup j m)
unfolding bump
lookup-bump span now k j m = lookup-insert k j _ m

unfoldable pub bumps : ℕ → String → List ℕ → GoMap RateLimitEntry → GoMap RateLimitEntry
bumps span k [] m = m
bumps span k (t ∷ ts) m = bumps span k ts (bump span t k m)

-- Every time on the list is at most `t`.
abbrev pub AllBy : ℕ → List ℕ → Type 0
AllBy t [] = Unit
AllBy t (u ∷ us) = (u ≤ t) × AllBy t us

lookup-bumps :
    (span end n : ℕ) (k : String) (ts : List ℕ) (m : GoMap RateLimitEntry)
    → lookup k m ≡ some (record { count = n; window_end = end })
    → AllBy end ts
    → lookup k (bumps span k ts m) ≡ some (record { count = n + length ts; window_end = end })
unfolding bumps
lookup-bumps span end n k [] m h b = ground arith
lookup-bumps span end n k (t ∷ ts) m h b = ground (
  arith,
  eq_iff k k,
  lookup-bump span t k k m,
  lookup-bumps span end (n + 1) k ts (bump span t k m),
)

-- The count of a key after a number of events, the first of which opened the window.
pub current-bumps :
    (span now t : ℕ) (k : String) (ts : List ℕ) (m : GoMap RateLimitEntry)
    → in_window t (lookup k m) ≡ none
    → AllBy (t + span) ts
    → current now k (bumps span k (t ∷ ts) m) ≡ (if leb now (t + span) then length (t ∷ ts) else 0)
unfolding bumps current
current-bumps span now t k ts m h b = ground (
  arith,
  eq_iff k k,
  lookup-bump span t k k m,
  lookup-bumps span (t + span) 1 k ts (bump span t k m),
)

-- What the cleanup drops reads as no count from then on.
pub current-expire :
    (now later : ℕ) (k : String) (m : GoMap RateLimitEntry)
    → UniqueKeys m
    → now ≤ later
    → current later k (expire now m) ≡ current later k m
unfolding current expire lookup
current-expire now later k [] u h = refl
current-expire now later k ((j, e) ∷ m) u h =
    ground (arith, eq_iff j k, current-expire now later k m u.1)
