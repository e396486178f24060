-- ===== src/Examples/Relays.antt =====
-- The relay of internal/service.
use yunt.Prelude.{
  ℕ, zero, suc, ◌≡◌, refl, ◌≤◌, String, true, false, Option, none, some, List, [], ◌∷◌,
}
use yunt.Prelude.Int.{pos}
use yunt.Smtp.Address.{Text}
use yunt.Service.Relay.{
  RelayConfig, default_relay_config, RelayService, LoopEnd, finished, is_domain_allowed,
  is_recipient_allowed, filter_allowed_recipients, allowed_of, parts_allowed, split, relay,
}
use yunt.Service.Relay.Tries.{Tries, Reports, relay-Tries}

abbrev config : RelayConfig
config = record default_relay_config { enabled = true; retry_count = pos 1 }

abbrev same : Text → Text
same t = t

abbrev ann : Text
ann = b'a' ∷ b'@' ∷ b'x' ∷ []

abbrev service : RelayService
service = record { config = config; total_attempts = 2; total_successes = 1; total_failures = 1 }

-- The first attempt fails, the second is accepted.
abbrev flaky : List Text → ℕ → Option String
flaky recipients a = elim a [ zero ↦ none | suc zero ↦ some "timeout" | suc (suc n) ↦ none ]

relay-Tries_example :
    let allowed = filter_allowed_recipients same config (ann ∷ []) in
    (e : LoopEnd) × Tries (flaky allowed) (λ a. false) 2 1 e
    × ((1 ≤ e.attempts) × (e.attempts ≤ 2))
    × (relay same flaky (λ a. false) (ann ∷ []) service
        ≡ finished allowed (record service { total_attempts = 3 }) e)
    × Reports allowed service e (relay same flaky (λ a. false) (ann ∷ []) service)
unfolding filter_allowed_recipients allowed_of is_recipient_allowed parts_allowed split
    is_domain_allowed
relay-Tries_example = relay-Tries same flaky (λ a. false) (ann ∷ []) service 1 refl refl refl
