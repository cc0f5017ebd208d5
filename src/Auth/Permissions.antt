-- ===== src/Auth/Permissions.antt =====
-- backend/src/auth/permissions.ts: permissions, and roles as bundles of them.
use paymaster.Common.{
  ℕ, ◌≡◌, ◌∙◌, refl, Bool, true, false, ◌||◌, List, [], ◌∷◌, ◌++◌, any, nat_eq, nat_beq, arith,
  Option, none, some, ◌==◌, list_eq, if◌then◌else◌,
}
use paymaster.Common.Text.{Text, text}

pub data Permission : Type 0 where
  sponsor_create policy_read policy_write chain_read chain_write key_read : Permission
  key_write metrics_read platform_read billing_write funding_write : Permission

pub data Role : Type 0 where
  sponsor viewer admin tenant_admin platform : Role

-- A role's name among `ROLE_NAMES`.
unfoldable pub role_name : Role → Text
role_name sponsor = text "sponsor"
role_name viewer = text "viewer"
role_name admin = text "admin"
role_name tenant_admin = text "tenant_admin"
role_name platform = text "platform"

role_among : List Role → Text → Option Role
unfolding role_name
role_among [] name = none
role_among (r ∷ roles) name = if role_name r == name then some r else role_among roles name

-- `isRole`, with the role that it finds.
unfoldable pub role_named : Text → Option Role
unfolding role_among
role_named = role_among (sponsor ∷ viewer ∷ admin ∷ tenant_admin ∷ platform ∷ [])

pub role_named-role_name : (r : Role) → role_named (role_name r) ≡ some r
unfolding role_named role_among role_name
role_named-role_name sponsor = refl
role_named-role_name viewer = refl
role_named-role_name admin = refl
role_named-role_name tenant_admin = refl
role_named-role_name platform = refl

-- The place of a permission in `PERMISSIONS`.
abbrev pub code : Permission → ℕ
code sponsor_create = 0
code policy_read = 1
code policy_write = 2
code chain_read = 3
code chain_write = 4
code key_read = 5
code key_write = 6
code metrics_read = 7
code platform_read = 8
code billing_write = 9
code funding_write = 10

-- `ROLES[role]`
unfoldable pub permissions_of : Role → List Permission
permissions_of sponsor = sponsor_create ∷ []
permissions_of viewer = policy_read ∷ chain_read ∷ key_read ∷ metrics_read ∷ []
permissions_of admin =
    sponsor_create ∷ policy_read ∷ policy_write ∷ chain_read ∷ chain_write ∷ key_read ∷ key_write
    ∷ metrics_read ∷ funding_write ∷ []
permissions_of tenant_admin =
    policy_read ∷ policy_write ∷ chain_read ∷ key_read ∷ key_write ∷ metrics_read ∷ funding_write
    ∷ []
permissions_of platform =
    sponsor_create ∷ policy_read ∷ policy_write ∷ chain_read ∷ chain_write ∷ key_read ∷ key_write
    ∷ metrics_read ∷ platform_read ∷ billing_write ∷ funding_write ∷ []

-- The set of what the roles grant; only membership is asked of it.
unfoldable pub permissions_for : List Role → List Permission
unfolding permissions_of
permissions_for [] = []
permissions_for (role ∷ roles) = permissions_of role ++ permissions_for roles

-- `permissions.has(permission)`
unfoldable pub grants : List Permission → Permission → Bool
grants granted p = any (λ q. nat_beq (code q) (code p)) granted

abbrev pub is_platform : Role → Bool
is_platform platform = true
is_platform _ = false

abbrev pub spends : Role → Bool
spends sponsor = true
spends admin = true
spends platform = true
spends _ = false

any-append :
    (p : Permission → Bool) (xs ys : List Permission) → any p (xs ++ ys) ≡ (any p xs || any p ys)
any-append p [] ys = refl
any-append p (x ∷ xs) ys = ground (arith, any-append p xs ys)

role-billing : (r : Role) → grants (permissions_of r) billing_write ≡ is_platform r
unfolding grants permissions_of
role-billing sponsor = refl
role-billing viewer = refl
role-billing admin = refl
role-billing tenant_admin = refl
role-billing platform = refl

role-reads : (r : Role) → grants (permissions_of r) platform_read ≡ is_platform r
unfolding grants permissions_of
role-reads sponsor = refl
role-reads viewer = refl
role-reads admin = refl
role-reads tenant_admin = refl
role-reads platform = refl

role-spends : (r : Role) → grants (permissions_of r) sponsor_create ≡ spends r
unfolding grants permissions_of
role-spends sponsor = refl
role-spends viewer = refl
role-spends admin = refl
role-spends tenant_admin = refl
role-spends platform = refl

-- What holds of one role holds of several: they grant what any of them grants.
union :
    (f : Role → Bool) (p : Permission)
    → ((r : Role) → grants (permissions_of r) p ≡ f r)
    → (roles : List Role) → grants (permissions_for roles) p ≡ any f roles
unfolding permissions_for grants
union f p h [] = refl
union f p h (r ∷ roles) =
    any-append (λ q. nat_beq (code q) (code p)) (permissions_of r) (permissions_for roles)
    ∙ (λ i. h r i || union f p h roles i)

-- The tenant boundary in the roles: a set of roles grants the recording of payments for any tenant,
-- and reading across tenants, exactly if the platform's role is among them; and it grants sponsoring
-- exactly if it has the role of a sponsor, of an admin or of the platform.
pub roles_bound :
    (roles : List Role)
    → (grants (permissions_for roles) billing_write ≡ any is_platform roles)
      × (grants (permissions_for roles) platform_read ≡ any is_platform roles)
      × (grants (permissions_for roles) sponsor_create ≡ any spends roles)
roles_bound roles = (
  union is_platform billing_write role-billing roles,
  union is_platform platform_read role-reads roles,
  union spends sponsor_create role-spends roles,
)
