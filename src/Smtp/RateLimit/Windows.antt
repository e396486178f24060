-- ===== src/Smtp/RateLimit/Windows.antt =====
-- The limits per minute and per hour.
use yunt.Prelude.{
  ℕ, suc, ◌+◌, ◌≤◌, ◌<◌, ◌≡◌, String, Bool, true, false, ◌&&◌, Option, none, some, List, [], ◌∷◌,
  arith, leb, if◌then◌else◌, str_eq, eq_iff, length,
}
use yunt.Prelude.Maps.{lookup, lookup_count, lookup-insert}
use yunt.Smtp.Reply.{SmtpError, smtp_error, too_many_messages_in_connection, message_rate_exceeded}
use yunt.Smtp.Window.{minute, hour, in_window, current, over}
use yunt.Smtp.Window.Laws.{bumps, AllBy, lookup-bump, current-bumps}
use yunt.Smtp.RateLimit.{RateLimiter, extract_ip, check_connection, check_message, on_message_sent}

abbrev pub is_accepted : Option SmtpError → Bool
is_accepted none = true
is_accepted (some e) = false

-- Every attempt is made by the time `t`.
abbrev pub AllMadeBy : ℕ → List (ℕ × String) → Type 0
AllMadeBy t [] = Unit
AllMadeBy t ((u, a) ∷ rest) = (u ≤ t) × AllMadeBy t rest

module _ (host_of : String → Option String) where
  -- How many of the attempts to connect from `ip`, among those of all addresses, pass the check.
  pub accepted : String → RateLimiter → List (ℕ × String) → ℕ
  accepted ip rl [] = 0
  accepted ip rl ((t, a) ∷ rest) =
      let (rl', e) = check_connection host_of t a rl in
      let n = accepted ip rl' rest in
      if str_eq (extract_ip host_of a) ip && is_accepted e then suc n else n

  check-accepted :
      (ip a : String) (rl : RateLimiter) (t n end : ℕ)
      → rl.config.enabled ≡ true
      → 0 < rl.config.connections_per_minute
      → lookup ip rl.connection_rate ≡ some (record { count = n; window_end = end })
      → t ≤ end
      → lookup ip (check_connection host_of t a rl).0.connection_rate
        ≡ some (record {
          count =
              if str_eq (extract_ip host_of a) ip && is_accepted (check_connection host_of t a rl).1
              then n + 1
              else n;
          window_end = end;
        })
  unfolding check_connection current
  check-accepted ip a rl t n end on lim h b = ground (
    arith,
    eq_iff (extract_ip host_of a) ip,
    lookup-bump minute t (extract_ip host_of a) ip rl.connection_rate,
  )

  room-check :
      (ip a : String) (rl : RateLimiter) (t n end : ℕ)
      → rl.config.enabled ≡ true
      → 0 < rl.config.connections_per_minute
      → lookup ip rl.connection_rate ≡ some (record { count = n; window_end = end })
      → t ≤ end
      → (str_eq (extract_ip host_of a) ip && is_accepted (check_connection host_of t a rl).1) ≡ true
      → n < rl.config.connections_per_minute
  unfolding check_connection current
  room-check ip a rl t n end on lim h b e = ground (arith, eq_iff (extract_ip host_of a) ip)

  config-check :
      (a : String) (rl : RateLimiter) (t : ℕ)
      → (check_connection host_of t a rl).0.config ≡ rl.config
  unfolding check_connection
  config-check a rl t = ground arith

  accepted-le :
      (ip : String) (rl : RateLimiter) (ts : List (ℕ × String)) (n end : ℕ)
      → rl.config.enabled ≡ true
      → 0 < rl.config.connections_per_minute
      → lookup ip rl.connection_rate ≡ some (record { count = n; window_end = end })
      → n ≤ rl.config.connections_per_minute
      → AllMadeBy end ts
      → n + accepted ip rl ts ≤ rl.config.connections_per_minute
  unfolding accepted
  accepted-le ip rl [] n end on lim h le b = omega arith
  accepted-le ip rl ((t, a) ∷ ts) n end on lim h le b = ground (
    arith,
    config-check a rl t,
    check-accepted ip a rl t n end on lim h b.0,
    room-check ip a rl t n end on lim h b.0,
    accepted-le ip (check_connection host_of t a rl).0 ts n end,
    accepted-le ip (check_connection host_of t a rl).0 ts (n + 1) end,
  )

  opens-window :
      (a : String) (rl : RateLimiter) (t : ℕ)
      → rl.config.enabled ≡ true
      → 0 < rl.config.connections_per_minute
      → in_window t (lookup (extract_ip host_of a) rl.connection_rate) ≡ none
      → (check_connection host_of t a rl).1 ≡ none
      → lookup (extract_ip host_of a) (check_connection host_of t a rl).0.connection_rate
        ≡ some (record { count = 1; window_end = t + minute })
  unfolding check_connection current
  opens-window a rl t on lim h ok = ground (
    arith,
    eq_iff (extract_ip host_of a) (extract_ip host_of a),
    lookup-bump minute t (extract_ip host_of a) (extract_ip host_of a) rl.connection_rate,
  )

  -- With the limiter on and this limit set: from the attempt that passes and opens a window, no
  -- more than the limit of connections per minute from one address pass the check within the
  -- minute, however many other addresses connect in between.
  pub connections_per_minute_bound :
      (a : String) (rl : RateLimiter) (t : ℕ) (ts : List (ℕ × String))
      → rl.config.enabled ≡ true
      → 0 < rl.config.connections_per_minute
      → in_window t (lookup (extract_ip host_of a) rl.connection_rate) ≡ none
      → AllMadeBy (t + minute) ts
      → (check_connection host_of t a rl).1 ≡ none
      → accepted (extract_ip host_of a) rl ((t, a) ∷ ts) ≤ rl.config.connections_per_minute
  unfolding accepted
  connections_per_minute_bound a rl t ts on lim h b ok = ground (
    arith,
    eq_iff (extract_ip host_of a) (extract_ip host_of a),
    config-check a rl t,
    opens-window a rl t on lim h ok,
    accepted-le (extract_ip host_of a) (check_connection host_of t a rl).0 ts 1 (t + minute),
  )

  pub sends : String → RateLimiter → List ℕ → RateLimiter
  sends a rl [] = rl
  sends a rl (t ∷ ts) = sends a (on_message_sent host_of t a rl) ts

  -- What the messages sent so far leave behind.
  sends-counts :
      (a : String) (rl : RateLimiter) (ts : List ℕ)
      → rl.config.enabled ≡ true
      → ((sends a rl ts).message_count ≡ bumps hour (extract_ip host_of a) ts rl.message_count)
        × (lookup_count a (sends a rl ts).messages_per_connection
            ≡ lookup_count a rl.messages_per_connection + length ts)
        × ((sends a rl ts).config ≡ rl.config)
  unfolding sends bumps on_message_sent lookup_count
  sends-counts a rl [] on = ground arith
  sends-counts a rl (t ∷ ts) on = ground (
    arith,
    eq_iff a a,
    lookup-insert a a (lookup_count a rl.messages_per_connection + 1) rl.messages_per_connection,
    sends-counts a (on_message_sent host_of t a rl) ts,
  )

  -- With the limiter on: after a number of messages on one connection, the first of which opens the
  -- hour of its address and the others fall into that hour, the next one is refused exactly if the
  -- connection has used up its messages or, until that hour is over, the address has used up those
  -- of the hour; the reply says which.
  check_message-sends :
      (a : String) (rl : RateLimiter) (now t : ℕ) (ts : List ℕ)
      → rl.config.enabled ≡ true
      → in_window t (lookup (extract_ip host_of a) rl.message_count) ≡ none
      → AllBy (t + hour) ts
      → let n = length (t ∷ ts) in
        check_message host_of now a (sends a rl (t ∷ ts)) ≡ (
          if over rl.config.messages_in_connection (lookup_count a rl.messages_per_connection + n)
          then some (smtp_error 452 4 7 1 too_many_messages_in_connection)
          else if over rl.config.messages_per_hour n && leb now (t + hour)
          then some (smtp_error 452 4 7 1 message_rate_exceeded)
          else none)
  unfolding check_message
  check_message-sends a rl now t ts on h b = ground (
    arith,
    sends-counts a rl (t ∷ ts) on,
    current-bumps hour now t (extract_ip host_of a) ts rl.message_count h b,
  )
