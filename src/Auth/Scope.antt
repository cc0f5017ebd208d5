-- ===== src/Auth/Scope.antt =====
-- backend/src/db/scope.ts: tenant ids, and on whose behalf a query runs.
use paymaster.Common.{
  ℕ, Bool, true, ◌&&◌, ◌||◌, Option, none, some, leb, length, every, ◌==◌, nat_eq, list_eq,
}
use paymaster.Common.Text.{Text, text, colon}

pub data Scope : Type 0 where
  tenant_scope : Text → Scope
  platform_scope : Scope

abbrev pub default_tenant_id : Text
default_tenant_id = text "default"

abbrev pub is_tenant_id_unit : ℕ → Bool
is_tenant_id_unit c =
    (leb b'a' c && leb c b'z')
    || ((leb b'A' c && leb c b'Z')
        || ((leb b'0' c && leb c b'9') || (c == b'.' || (c == b'_' || (c == colon || c == b'-')))))

-- `TENANT_ID_PATTERN`: `^[a-zA-Z0-9._:-]{1,64}$`
unfoldable pub is_tenant_id : Text → Bool
is_tenant_id id = leb 1 (length id) && (leb (length id) 64 && every is_tenant_id_unit id)

-- `scopePredicate`, asked of a row's tenant.
unfoldable pub in_scope : Scope → Text → Bool
in_scope (tenant_scope id) tenant = tenant == id
in_scope platform_scope tenant = true

-- `writingTenant`: none is its error for the scope of the platform.
unfoldable pub writing_tenant : Scope → Option Text
writing_tenant (tenant_scope id) = some id
writing_tenant platform_scope = none
