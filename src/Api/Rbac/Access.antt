-- ===== src/Api/Rbac/Access.antt =====
-- What the roles and the ownership let through.
use yunt.Prelude.{
  ◌≡◌, refl, ◌↔◌, ◌⊎◌, inl, inr, String, true, Option, none, some, [], ◌∷◌, arith, eq_iff,
}
use yunt.Api.Rbac.{
  role_admin, role_user, role_viewer, TokenClaims, RbacConfig, passed, mem, checks_owner, owns,
  rbac, owner_or_admin,
}

-- The claims are let through as an administrator's, as the owner's, or for their role.
abbrev pub MayPass : (String → String) → RbacConfig → TokenClaims → Type 0
MayPass param cfg c =
    (c.role ≡ role_admin)
    ⊎ (((checks_owner cfg ≡ true) × (owns param cfg c ≡ true))
        ⊎ (mem c.role cfg.allowed_roles ≡ true))

rbac-some :
    (param : String → String) (cfg : RbacConfig) (c : TokenClaims)
    → (rbac param cfg (some c) ≡ passed) ↔ MayPass param cfg c
unfolding rbac
rbac-some param cfg c = ground (arith, eq_iff c.role role_admin)

nothing_passed {ℓ} :
    {A : Type ℓ} (param : String → String) (cfg : RbacConfig) → rbac param cfg none ≡ passed → A
unfolding rbac
nothing_passed param cfg h = cc

is_role :
    (role : String)
    → (role ≡ role_user) ⊎ (role ≡ role_viewer)
    → mem role (role_admin ∷ role_user ∷ role_viewer ∷ []) ≡ true
unfolding mem
is_role role (inl h) = ground (arith, eq_iff role_user role)
is_role role (inr h) = ground (arith, eq_iff role_viewer role)

-- A request is let through exactly if it has claims, and they are an administrator's, or those of the
-- owner where the ownership is checked, or of one of the allowed roles: the check of the ownership
-- takes nothing away from an allowed role.
pub rbac_iff :
    (param : String → String) (cfg : RbacConfig) (claims : Option TokenClaims)
    → (rbac param cfg claims ≡ passed)
      ↔ ((c : TokenClaims) × (claims ≡ some c) × MayPass param cfg c)
rbac_iff param cfg none = (λ h. nothing_passed param cfg h, λ (x, e, m). cc)
rbac_iff param cfg (some c) =
    (λ h. (c, refl, (rbac-some param cfg c).0 h), λ (x, e, m). rw e ((rbac-some param cfg x).1 m))

-- The middleware that is to let only the owner and administrators through lets every claim of a user
-- or a viewer through, whatever the parameter of the path says.
pub owner_or_admin_lets_all :
    (param : String → String) (owner_id_param : String) (c : TokenClaims)
    → (c.role ≡ role_user) ⊎ (c.role ≡ role_viewer)
    → rbac param (owner_or_admin owner_id_param) (some c) ≡ passed
owner_or_admin_lets_all param owner_id_param c h =
    (rbac-some param (owner_or_admin owner_id_param) c).1 (inr (inr (is_role c.role h)))
