-- ===== src/Auth/Tenants.antt =====
-- backend/src/db/tenantRepository.ts: the tenants and their members. A database is its two tables; a
-- tenant's id is the key of the first, and a tenant with a subject the key of the second.
pub mod Recorded
use paymaster.Common.{
  ℕ, Bool, true, false, ◌&&◌, Option, none, some, List, [], ◌∷◌, ◌++◌, leb, any, ◌==◌, list_eq,
  nat_eq, if◌then◌else◌,
}
use paymaster.Common.Results.{Result, ok, err, ◌>>=◌, ◌>>◌, guard}
use paymaster.Common.Text.{Text, text}
use paymaster.Auth.Scope.{is_tenant_id}

pub data TenantRole : Type 0 where
  owner admin member : TenantRole

pub data TenantStatus : Type 0 where
  active suspended : TenantStatus

pub record Tenant : Type 0 where
  pub id : Text
  pub name : Text
  pub status : TenantStatus
  pub created_at : ℕ

pub record Membership : Type 0 where
  pub tenant : Tenant
  pub role : TenantRole

pub record TenantRow : Type 0 where
  pub id : Text
  pub name : Text
  pub status : Text
  pub created_at : ℕ

pub record MemberRow : Type 0 where
  pub tenant_id : Text
  pub subject : Text
  pub role : Text

pub record Tenants : Type 0 where
  pub tenants : List TenantRow
  pub members : List MemberRow

-- What a query throws.
abbrev pub Thrown : Type 0
Thrown = Text

-- `tenantId`
unfoldable pub tenant_id : Text → Result Thrown Text
tenant_id value = if is_tenant_id value then ok value else err (text "InvalidTenantIdError")

abbrev pub as_status : Text → TenantStatus
as_status s = if s == text "suspended" then suspended else active

-- An unknown role grants the least.
unfoldable pub as_role : Text → TenantRole
as_role s = if s == text "owner" then owner else (if s == text "admin" then admin else member)

unfoldable pub to_tenant : TenantRow → Result Thrown Tenant
unfolding tenant_id
to_tenant row = do
  id ← tenant_id row.id
  ok (record {
    id = id;
    name = row.name;
    status = as_status row.status;
    created_at = row.created_at;
  })

-- `toMembership` of a tenant's row and the role beside it.
unfoldable pub to_membership : TenantRow × Text → Result Thrown Membership
unfolding to_tenant as_role
to_membership row = do
  tenant ← to_tenant row.0
  ok (record { tenant = tenant; role = as_role row.1 })

unfoldable pub tenant_row : Text → List TenantRow → Option TenantRow
tenant_row id [] = none
tenant_row id (t ∷ tenants) = if t.id == id then some t else tenant_row id tenants

abbrev pub with_role : Option TenantRow → Text → List (TenantRow × Text) → List (TenantRow × Text)
with_role none role rows = rows
with_role (some t) role rows = (t, role) ∷ rows

-- The rows of a subject's memberships, each joined to its tenant.
unfoldable pub joined : Text → List TenantRow → List MemberRow → List (TenantRow × Text)
unfolding tenant_row
joined subject tenants [] = []
joined subject tenants (m ∷ members) =
    let rest = joined subject tenants members in
    if m.subject == subject then with_role (tenant_row m.tenant_id tenants) m.role rest else rest

-- `ORDER BY t.created_at`
unfoldable pub insert_by_age : TenantRow × Text → List (TenantRow × Text) → List (TenantRow × Text)
insert_by_age row [] = row ∷ []
insert_by_age row (first ∷ rows) =
    let rest = insert_by_age row rows in
    if leb row.0.created_at first.0.created_at then row ∷ first ∷ rows else first ∷ rest

unfoldable pub by_age : List (TenantRow × Text) → List (TenantRow × Text)
unfolding insert_by_age
by_age [] = []
by_age (row ∷ rows) = insert_by_age row (by_age rows)

unfoldable pub to_memberships : List (TenantRow × Text) → Result Thrown (List Membership)
unfolding to_membership
to_memberships [] = ok []
to_memberships (row ∷ rows) = do
  membership ← to_membership row
  memberships ← to_memberships rows
  ok (membership ∷ memberships)

unfoldable pub memberships_for : Text → Tenants → Result Thrown (List Membership)
unfolding joined by_age to_memberships
memberships_for subject db = to_memberships (by_age (joined subject db.tenants db.members))

-- `WHERE m.subject = $1 AND m.tenant_id = $2`
unfoldable pub member_row : Text → Text → List MemberRow → Option MemberRow
member_row subject id [] = none
member_row subject id (m ∷ members) =
    if m.subject == subject && m.tenant_id == id then some m else member_row subject id members

abbrev pub joined_row : Option TenantRow → Option MemberRow → Option (TenantRow × Text)
joined_row (some t) (some m) = some (t, m.role)
joined_row _ _ = none

abbrev pub maybe_membership : Option (TenantRow × Text) → Result Thrown (Option Membership)
maybe_membership none = ok none
maybe_membership (some row) = to_membership row >>= λ m. ok (some m)

unfoldable pub membership : Text → Text → Tenants → Result Thrown (Option Membership)
unfolding tenant_row member_row
membership subject id db =
    maybe_membership (joined_row (tenant_row id db.tenants) (member_row subject id db.members))

abbrev pub is_taken : Text → List TenantRow → Bool
is_taken id tenants = any (λ (t : TenantRow). t.id == id) tenants

-- The row that an insert of an id and a name makes, by the defaults of its columns.
new_tenant : Text → Text → ℕ → TenantRow
new_tenant id name now = record { id = id; name = name; status = text "active"; created_at = now }

-- One transaction: the tenant and its owner, or neither when the id is taken.
unfoldable pub create_with_owner : Text → Text → Text → ℕ → Tenants → Result Thrown Tenant × Tenants
unfolding to_tenant new_tenant
create_with_owner id name subject now db =
    if is_taken id db.tenants
    then (err (text "unique_violation"), db)
    else elim (to_tenant (new_tenant id name now)) [
      | err e ↦ (err e, db)
      | ok tenant ↦ (
        ok tenant,
        record {
          tenants = db.tenants ++ new_tenant id name now ∷ [];
          members =
              db.members ++ record { tenant_id = id; subject = subject; role = text "owner" } ∷ [];
        },
      )
    ]

upsert_member : MemberRow → List MemberRow → List MemberRow
upsert_member m [] = m ∷ []
upsert_member m (n ∷ members) =
    let rest = upsert_member m members in
    if n.subject == m.subject && n.tenant_id == m.tenant_id then m ∷ members else n ∷ rest

-- A member of no tenant breaks the foreign key.
unfoldable pub add_member : Text → Text → TenantRole → Tenants → Result Thrown (Unit {0}) × Tenants
unfolding upsert_member
add_member id subject role db =
    if is_taken id db.tenants
    then (
      ok tt,
      record {
        tenants = db.tenants;
        members =
            upsert_member (record { tenant_id = id; subject = subject; role = role_text role })
              db.members;
      },
    )
    else (err (text "foreign_key_violation"), db)
  where
    role_text : TenantRole → Text
    role_text owner = text "owner"
    role_text admin = text "admin"
    role_text member = text "member"

with_status : Text → Text → List TenantRow → List TenantRow
with_status id status [] = []
with_status id status (t ∷ tenants) =
    let rest = with_status id status tenants in
    if t.id == id
    then record { id = t.id; name = t.name; status = status; created_at = t.created_at } ∷ rest
    else t ∷ rest

-- Whether there was such a tenant.
unfoldable pub set_status : Text → TenantStatus → Tenants → Bool × Tenants
unfolding with_status
set_status id status db = (
  is_taken id db.tenants,
  record { tenants = with_status id (status_text status) db.tenants; members = db.members },
)
  where
    status_text : TenantStatus → Text
    status_text active = text "active"
    status_text suspended = text "suspended"
