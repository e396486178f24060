-- ===== src/Service/Relay/Recipients.antt =====
-- The recipients that a message may be relayed to.
use yunt.Prelude.{
  ℕ, ◌≡◌, refl, ◌↔◌, ◌++◌, inl, inr, Bool, true, false, List, [], ◌∷◌, arith, ◌==◌, Bool-cases,
}
use yunt.Smtp.Address.{Text, count}
use yunt.Service.Relay.{
  RelayConfig, first_longer, split, is_nil, parts_allowed, is_domain_allowed, is_recipient_allowed,
}

-- One `@`, with a local part before it and an allowed domain behind.
pub record IsRelayable (allows : Text → Bool) (email : Text) : Type 0 where
  pub local : Text
  pub domain : Text
  pub parts : email ≡ local ++ b'@' ∷ domain
  pub local_some : is_nil local ≡ false
  pub domain_some : is_nil domain ≡ false
  pub local_plain : count b'@' local ≡ 0
  pub domain_plain : count b'@' domain ≡ 0
  pub allowed : allows domain ≡ true

-- A text between its `@`, which none of the parts has.
data Parts : Text → List Text → Type 0 where
  one : {s : Text} → count b'@' s ≡ 0 → Parts s (s ∷ [])
  more :
      (p : Text) {t : Text} {parts : List Text}
      → count b'@' p ≡ 0
      → Parts t parts
      → Parts (p ++ b'@' ∷ t) (p ∷ parts)

longer-Parts :
    (c : ℕ) {s : Text} {parts : List Text}
    → (c == b'@') ≡ false
    → Parts s parts
    → Parts (c ∷ s) (first_longer c parts)
unfolding first_longer count
longer-Parts c h (one {s} k) = one (ground arith)
longer-Parts c h (more p k t) = more (c ∷ p) (ground arith) t

split-at : (c : ℕ) (s : Text) → (c == b'@') ≡ true → split b'@' (c ∷ s) ≡ [] ∷ split b'@' s
unfolding split
split-at c s h = rw h refl

split-longer :
    (c : ℕ) (s : Text) → (c == b'@') ≡ false → split b'@' (c ∷ s) ≡ first_longer c (split b'@' s)
unfolding split
split-longer c s h = rw h refl

count-empty : count b'@' [] ≡ 0
unfolding count
count-empty = refl

split-Parts : (s : Text) → Parts s (split b'@' s)
split-Parts [] = unfold split in one {s = []} count-empty
split-Parts (c ∷ s) = elim (Bool-cases (c == b'@')) [
  | inl h ↦
      let e : c ≡ b'@' = ground arith in
      rw (split-at c s h, e) (more [] count-empty (split-Parts s))
  | inr h ↦ rw (split-longer c s h) (longer-Parts c h (split-Parts s))
]

split-plain : (s : Text) → count b'@' s ≡ 0 → split b'@' s ≡ s ∷ []
unfolding count split first_longer
split-plain [] h = refl
split-plain (c ∷ s) h = elim (Bool-cases (c == b'@')) [
  | inl k ↦ absurd (ground arith)
  | inr k ↦ rw (k, split-plain s (ground arith)) refl
]

split-append : (s t : Text) → count b'@' s ≡ 0 → split b'@' (s ++ b'@' ∷ t) ≡ s ∷ split b'@' t
unfolding count split first_longer
split-append [] t h = refl
split-append (c ∷ s) t h = elim (Bool-cases (c == b'@')) [
  | inl k ↦ absurd (ground arith)
  | inr k ↦ rw (k, split-append s t (ground arith)) refl
]

module _ (to_lower : Text → Text) (config : RelayConfig) where
  Parts-IsRelayable :
      {s : Text} {parts : List Text}
      → Parts s parts
      → parts_allowed to_lower config parts ≡ true
      → IsRelayable (is_domain_allowed to_lower config) s
  unfolding parts_allowed
  Parts-IsRelayable (one k) h = cc
  Parts-IsRelayable (more p k (one {s = t} l)) h = record {
    local = p;
    domain = t;
    parts = refl;
    local_some = ground arith;
    domain_some = ground arith;
    local_plain = k;
    domain_plain = l;
    allowed = ground arith;
  }
  Parts-IsRelayable (more p k (more q l (one m))) h = cc
  Parts-IsRelayable (more p k (more q l (more r m t))) h = cc

  IsRelayable-allowed :
      (email : Text)
      → IsRelayable (is_domain_allowed to_lower config) email
      → is_recipient_allowed to_lower config email ≡ true
  unfolding is_recipient_allowed parts_allowed
  IsRelayable-allowed email v =
      rw (v.parts, split-append v.local v.domain v.local_plain, split-plain v.domain v.domain_plain)
        (ground (arith, v.local_some, v.domain_some, v.allowed))

  -- A recipient is allowed for the relay exactly if it is a local part and a domain about its only
  -- `@`, neither of them empty, and its domain is allowed.
  is_recipient_allowed_iff :
      (email : Text)
      → (is_recipient_allowed to_lower config email ≡ true)
        ↔ IsRelayable (is_domain_allowed to_lower config) email
  unfolding is_recipient_allowed
  is_recipient_allowed_iff email =
      (λ h. Parts-IsRelayable (split-Parts email) h, λ v. IsRelayable-allowed email v)
