-- ===== src/Policy/Rules/AccessLists/Decisions.antt =====
-- What the rules of backend/src/policy/rules/accessLists.ts accept.
use paymaster.Common.{
  ◌≡◌, ◌↔◌, refl, ap, ◌∙◌, Bool, true, Option, none, some, List, [], ◌∷◌, every, ltb, not, map,
  arith, list_eq, nat_eq,
}
use paymaster.Common.Text.{Text, to_lower}
use paymaster.UserOperation.{Hex}
use paymaster.Policy.Context.{
  DecodedCall, PolicyContext, PolicyDecision, PolicyDenialCode, allow, deny,
}
use paymaster.Policy.Rules.AccessLists.{
  has, has_text, check_targets, target_allowlist, check_methods, method_allowlist, check_values,
  no_value_transfer,
}

-- A call whose selector is on the list, or which has none where bare transfers are allowed.
abbrev pub is_listed : List Text → Bool → Option Hex → Bool
is_listed set bare none = bare
is_listed set bare (some s) = has_text set (to_lower s)

checked_targets :
    (set : List Text) (calls : List DecodedCall)
    → (check_targets set calls ≡ allow)
      ↔ (every (λ (c : DecodedCall). has set c.target) calls ≡ true)
unfolding check_targets
checked_targets set [] = ground arith
checked_targets set (call ∷ calls) = ground (arith, checked_targets set calls)

checked_values :
    (calls : List DecodedCall)
    → (check_values calls ≡ allow) ↔ (every (λ (c : DecodedCall). not (ltb 0 c.value)) calls ≡ true)
unfolding check_values
checked_values [] = ground arith
checked_values (call ∷ calls) = ground (arith, checked_values calls)

checked_methods :
    (set : List Text) (bare : Bool) (calls : List DecodedCall)
    → (check_methods set bare calls ≡ allow)
      ↔ (every (λ (c : DecodedCall). is_listed set bare c.selector) calls ≡ true)
unfolding check_methods
checked_methods set bare [] = ground arith
checked_methods set bare (call ∷ calls) = ground (arith, checked_methods set bare calls)

on_known_calls :
    (decide : List DecodedCall → PolicyDecision) (test : List DecodedCall → Bool) (name : Text)
    (code : PolicyDenialCode)
    → ((calls : List DecodedCall) → (decide calls ≡ allow) ↔ (test calls ≡ true))
    → (o : Option (List DecodedCall))
    → ((elim o [ none ↦ deny name code | some calls ↦ decide calls ]) ≡ allow)
      ↔ ((calls : List DecodedCall) × (o ≡ some calls) × (test calls ≡ true))
on_known_calls decide test name code iff none = (λ e. cc, λ h. cc)
on_known_calls decide test name code iff (some calls) = (
  λ e. (calls, refl, (iff calls).0 e),
  λ (known, same, passed). (iff calls).1 (ap test (some_eq same) ∙ passed),
)
  where
    some_eq :
        {x y : List DecodedCall} → ◌≡◌ {A = Option (List DecodedCall)} (some x) (some y) → x ≡ y
    some_eq e = cc

-- Each rule about calls allows a request exactly when its calls are known and every one of them
-- passes: its target is listed; its selector is, or it has none and bare transfers are allowed; it
-- moves no value. Call data that could not be decoded passes none of them.
pub call_rules :
    (targets selectors : List Text) (bare : Bool) (c : PolicyContext)
    → ((target_allowlist targets c ≡ allow) ↔ (
        (calls : List DecodedCall) × (c.calls ≡ some calls)
        × (every (λ (call : DecodedCall). has targets call.target) calls ≡ true)))
      × ((method_allowlist selectors bare c ≡ allow) ↔ (
          (calls : List DecodedCall) × (c.calls ≡ some calls)
          × (every
                (λ (call : DecodedCall). is_listed (map to_lower selectors) bare call.selector)
                calls
              ≡ true)))
      × ((no_value_transfer c ≡ allow) ↔ (
          (calls : List DecodedCall) × (c.calls ≡ some calls)
          × (every (λ (call : DecodedCall). not (ltb 0 call.value)) calls ≡ true)))
unfolding target_allowlist method_allowlist no_value_transfer
call_rules targets selectors bare c = (
  on_known_calls _ _ _ _ (checked_targets targets) c.calls,
  on_known_calls _ _ _ _ (checked_methods (map to_lower selectors) bare) c.calls,
  on_known_calls _ _ _ _ checked_values c.calls,
)
