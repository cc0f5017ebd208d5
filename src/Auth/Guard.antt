-- ===== src/Auth/Guard.antt =====
-- backend/src/api/guards/apiKey.guard.ts: who a request is from, and whether it may. `verify` is that of
-- the session tokens, where they are enabled; the throttle counts failures in a world of its own.
use paymaster.Common.{ℕ, not, Option, none, some, List, [], ◌∷◌, keep, if◌then◌else◌}
use paymaster.Common.Results.{Result, ok, err}
use paymaster.Common.Text.{Text}
use paymaster.Auth.Permissions.{Permission, permissions_for, grants}
use paymaster.Auth.Authenticator.{Principal, AuthFailureReason, is_well_formed_api_key}
use paymaster.Auth.Jwt.{VerifiedJwt, JwtVerifyReason, JwtClaims}

unfoldable pub session_principal : JwtClaims → Principal
unfolding permissions_for
session_principal c = record {
  tenant_id = c.tenant_id;
  api_key_id = c.sub;
  name = c.name;
  roles = c.roles;
  permissions = permissions_for c.roles;
  policy_id = c.policy_id;
}

pub data Denied : Type 0 where
  unauthorized : Denied
  forbidden : List Permission → Denied

abbrev of_session : Result JwtVerifyReason VerifiedJwt → Option Principal
of_session (ok v) = some (session_principal v.claims)
of_session (err e) = none

abbrev of_key : Result AuthFailureReason Principal → Option Principal
of_key (ok p) = some p
of_key (err e) = none

module _ (authenticate : Option Text → ℕ → Result AuthFailureReason Principal)
    (verify : Option (Text → ℕ → Result JwtVerifyReason VerifiedJwt)) where
  -- `#resolvePrincipal`: a credential that is not shaped as a key is a session's token.
  unfoldable pub resolve_principal : Option Text → ℕ → Option Principal
  unfolding session_principal is_well_formed_api_key
  resolve_principal none now = of_key (authenticate none now)
  resolve_principal (some presented) now = elim verify [
    | none ↦ of_key (authenticate (some presented) now)
    | some check ↦
        if is_well_formed_api_key presented
        then of_key (authenticate (some presented) now)
        else of_session (check presented now)
  ]

  module _ {W : Type 0} (record_failure : W → W) where
    permitted : List Permission → W → Option Principal → Result Denied Principal × W
    unfolding grants
    permitted required w none = (err unauthorized, record_failure w)
    permitted required w (some p) =
        (missing_none p (keep (λ q. not (grants p.permissions q)) required), w)
      where
        missing_none : Principal → List Permission → Result Denied Principal
        missing_none p [] = ok p
        missing_none p (q ∷ missing) = err (forbidden (q ∷ missing))

    -- A failed authentication is counted against the address; a missing permission is not.
    unfoldable pub can_activate :
        List Permission → Option Text → ℕ → W → Result Denied Principal × W
    unfolding resolve_principal permitted
    can_activate required presented now w = permitted required w (resolve_principal presented now)
