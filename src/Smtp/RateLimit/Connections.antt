-- ===== src/Smtp/RateLimit/Connections.antt =====
-- The connections that are open, counted per address and in all.
use yunt.Prelude.{
  ℕ, suc, ◌+◌, ◌-◌, ◌<◌, ◌≡◌, ◌↔◌, String, true, false, Option, some, List, [], ◌∷◌, ◌++◌, arith,
  if◌then◌else◌, str_eq, eq_iff, length, length-append,
}
use yunt.Prelude.Maps.{lookup_count, lookup-insert, lookup-delete}
use yunt.Smtp.Reply.{smtp_error, too_many_concurrent_connections}
use yunt.Smtp.Window.{over}
use yunt.Smtp.RateLimit.{
  RateLimiter, extract_ip, check_connection, on_connection_opened, on_connection_closed,
}

module _ (host_of : String → Option String) where
  -- How many of the open connections, given by their remote addresses, come from `ip`.
  abbrev pub open_from : String → List String → ℕ
  open_from ip [] = 0
  open_from ip (a ∷ os) =
      if str_eq (extract_ip host_of a) ip then suc (open_from ip os) else open_from ip os

  open_from-append :
      (ip : String) (os ps : List String)
      → open_from ip (os ++ ps) ≡ open_from ip os + open_from ip ps
  open_from-append ip [] ps = omega arith
  open_from-append ip (a ∷ os) ps = ground (arith, open_from-append ip os ps)

  -- The limiter counts the open connections, of each address and of all.
  pub record Represents (rl : RateLimiter) (os : List String) : Type 0 where
    pub per_address : (ip : String) → lookup_count ip rl.concurrent_connections ≡ open_from ip os
    pub in_all : rl.global_connections ≡ length os

  -- Opening a connection adds it to those that the limiter counts.
  pub on_connection_opened-Represents :
      (rl : RateLimiter) (os : List String) (a : String)
      → rl.config.enabled ≡ true
      → Represents rl os
      → Represents (on_connection_opened host_of a rl) (a ∷ os)
  unfolding on_connection_opened lookup_count
  on_connection_opened-Represents rl os a on v = record {
    per_address = λ ip. ground (
      arith,
      eq_iff (extract_ip host_of a) ip,
      v.per_address ip,
      lookup-insert (extract_ip host_of a) ip
          (lookup_count (extract_ip host_of a) rl.concurrent_connections + 1)
          rl.concurrent_connections,
    );
    in_all = ground (arith, v.in_all);
  }

  -- Closing an open connection takes it away from those that the limiter counts.
  pub on_connection_closed-Represents :
      (rl : RateLimiter) (os ps : List String) (a : String)
      → rl.config.enabled ≡ true
      → Represents rl (os ++ a ∷ ps)
      → Represents (on_connection_closed host_of a rl) (os ++ ps)
  unfolding on_connection_closed lookup_count
  on_connection_closed-Represents rl os ps a on v = record {
    per_address = λ ip. ground (
      arith,
      eq_iff (extract_ip host_of a) ip,
      eq_iff (extract_ip host_of a) (extract_ip host_of a),
      v.per_address ip,
      v.per_address (extract_ip host_of a),
      open_from-append ip os (a ∷ ps),
      open_from-append ip os ps,
      open_from-append (extract_ip host_of a) os (a ∷ ps),
      lookup-delete (extract_ip host_of a) ip rl.concurrent_connections,
      lookup-insert (extract_ip host_of a) ip
          (lookup_count (extract_ip host_of a) rl.concurrent_connections - 1)
          rl.concurrent_connections,
    );
    in_all = ground (arith, v.in_all, length-append os (a ∷ ps), length-append os ps);
  }

  -- With the limiter on and the open connections counted, one more is refused for its address
  -- exactly if the address has as many open as it may have, where the limit in all is not reached.
  check_connection-Represents :
      (rl : RateLimiter) (os : List String) (now : ℕ) (a : String)
      → Represents rl os
      → rl.config.enabled ≡ true
      → over rl.config.max_global_connections (length os) ≡ false
      → ((check_connection host_of now a rl).1
          ≡ some (smtp_error 421 4 7 0 (too_many_concurrent_connections (extract_ip host_of a))))
        ↔ (over rl.config.max_concurrent_connections (open_from (extract_ip host_of a) os) ≡ true)
  unfolding check_connection
  check_connection-Represents rl os now a v on room =
      ground (arith, v.in_all, v.per_address (extract_ip host_of a))

  -- A connection that was never counted, since its check refused it, is still taken away when it
  -- closes: its address then has one connection more open than the limiter counts.
  pub on_connection_closed_uncounted :
      (rl : RateLimiter) (os : List String) (a : String)
      → Represents rl os
      → rl.config.enabled ≡ true
      → 0 < open_from (extract_ip host_of a) os
      → lookup_count
            (extract_ip host_of a)
            (on_connection_closed host_of a rl).concurrent_connections
          + 1
        ≡ open_from (extract_ip host_of a) os
  unfolding on_connection_closed lookup_count
  on_connection_closed_uncounted rl os a v on some_open = ground (
    arith,
    eq_iff (extract_ip host_of a) (extract_ip host_of a),
    v.per_address (extract_ip host_of a),
    lookup-delete (extract_ip host_of a) (extract_ip host_of a) rl.concurrent_connections,
    lookup-insert (extract_ip host_of a) (extract_ip host_of a)
        (lookup_count (extract_ip host_of a) rl.concurrent_connections - 1)
        rl.concurrent_connections,
  )
