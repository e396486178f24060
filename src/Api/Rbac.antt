-- ===== src/Api/Rbac.antt =====
-- internal/api/middleware/rbac.go, with the claims of internal/domain/token.go: which requests a
-- role or the ownership of a resource lets through.
-- Roles and permissions are texts, as in the code; a role that is none of the three has no entry.
-- A middleware is the decision that it makes: the next handler is called, or an error is sent.
pub mod Access
use yunt.Prelude.{
  String, Bool, true, false, not, ◌&&◌, ◌||◌, Option, none, some, List, [], ◌∷◌, if◌then◌else◌,
  str_eq,
}

abbrev pub role_admin : String
role_admin = "admin"

abbrev pub role_user : String
role_user = "user"

abbrev pub role_viewer : String
role_viewer = "viewer"

pub data TokenType : Type 0 where
  access refresh : TokenType

pub record TokenClaims : Type 0 where
  pub user_id : String
  pub username : String
  pub email : String
  pub role : String
  pub token_type : TokenType
  pub session_id : String

pub record RbacConfig : Type 0 where
  pub allowed_roles : List String
  pub require_ownership : Bool
  pub owner_id_param : String

pub data Decision : Type 0 where
  passed : Decision
  unauthorized forbidden : String → Decision

unfoldable pub mem : String → List String → Bool
mem a [] = false
mem a (b ∷ bs) = str_eq b a || mem a bs

-- `cfg.RequireOwnership && cfg.OwnerIDParam != ""`
abbrev pub checks_owner : RbacConfig → Bool
checks_owner cfg = cfg.require_ownership && not (str_eq cfg.owner_id_param "")

-- `param` is `c.Param`, which reads a parameter of the path.
module _ (param : String → String) where
  abbrev pub owns : RbacConfig → TokenClaims → Bool
  owns cfg claims =
      let owner_id = param cfg.owner_id_param in
      not (str_eq owner_id "") && str_eq owner_id claims.user_id

  unfoldable pub rbac : RbacConfig → Option TokenClaims → Decision
  unfolding mem
  rbac cfg none = unauthorized "authentication required"
  rbac cfg (some claims) =
      let has_required_role = mem claims.role cfg.allowed_roles in
      if str_eq claims.role role_admin
      then passed
      else if checks_owner cfg && owns cfg claims
      then passed
      else if checks_owner cfg && not has_required_role
      then forbidden "access denied: you can only access your own resources"
      else if not has_required_role
      then forbidden "insufficient permissions"
      else passed

abbrev pub admin_only : RbacConfig
admin_only = record {
  allowed_roles = role_admin ∷ [];
  require_ownership = false;
  owner_id_param = "";
}

abbrev pub user_or_admin : RbacConfig
user_or_admin = record {
  allowed_roles = role_admin ∷ role_user ∷ [];
  require_ownership = false;
  owner_id_param = "";
}

abbrev pub viewer_or_higher : RbacConfig
viewer_or_higher = record {
  allowed_roles = role_admin ∷ role_user ∷ role_viewer ∷ [];
  require_ownership = false;
  owner_id_param = "";
}

abbrev pub owner_or_admin : String → RbacConfig
owner_or_admin owner_id_param = record {
  allowed_roles = role_admin ∷ role_user ∷ role_viewer ∷ [];
  require_ownership = true;
  owner_id_param = owner_id_param;
}

abbrev pub viewer_permissions : List String
viewer_permissions = "user:read" ∷ "mailbox:read" ∷ "message:read" ∷ []

abbrev pub user_permissions : List String
user_permissions =
    "user:read" ∷ "mailbox:read" ∷ "mailbox:write" ∷ "mailbox:delete" ∷ "message:read"
    ∷ "message:write" ∷ "message:delete" ∷ "webhook:read" ∷ "webhook:write" ∷ []

abbrev pub admin_permissions : List String
admin_permissions =
    "user:read" ∷ "user:write" ∷ "user:delete" ∷ "user:manage" ∷ "mailbox:read" ∷ "mailbox:write"
    ∷ "mailbox:delete" ∷ "message:read" ∷ "message:write" ∷ "message:delete" ∷ "settings:read"
    ∷ "settings:write" ∷ "webhook:read" ∷ "webhook:write" ∷ "webhook:delete" ∷ []

-- `rolePermissions[role]`
unfoldable pub role_permissions : String → Option (List String)
role_permissions role =
    if str_eq role role_admin
    then some admin_permissions
    else if str_eq role role_user
    then some user_permissions
    else if str_eq role role_viewer
    then some viewer_permissions
    else none

unfoldable pub has_permission : String → String → Bool
unfolding role_permissions mem
has_permission role permission = elim (role_permissions role) [
  | none ↦ false
  | some permissions ↦ mem permission permissions
]

unfoldable pub require_permission : String → Option TokenClaims → Decision
unfolding has_permission
require_permission permission none = unauthorized "authentication required"
require_permission permission (some claims) =
    if not (has_permission claims.role permission)
    then forbidden "insufficient permissions"
    else passed

unfoldable pub can_user_manage_other_user : Option TokenClaims → String → Bool
can_user_manage_other_user none target_user_id = false
can_user_manage_other_user (some claims) target_user_id =
    if str_eq claims.role role_admin then true else str_eq claims.user_id target_user_id
