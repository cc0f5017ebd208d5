-- ===== src/Policy/Rules/AccessLists.antt =====
-- backend/src/policy/rules/accessLists.ts: rules that only compare. `getAddress` of viem is a
-- parameter: it throws (`none`) on what is no address, and else returns its checksummed spelling.
pub mod Decisions
use paymaster.Common.{
  ℕ, Bool, Option, none, some, List, [], ◌∷◌, ltb, any, ◌==◌, list_eq, nat_eq, if◌then◌else◌, map,
}
use paymaster.Common.Results.{ok}
use paymaster.Common.Text.{Text, text, to_lower}
use paymaster.Policy.Context.{
  DecodedCall, PolicyContext, PolicyDecision, allow, deny, sender_not_allowed, sender_blocked,
  calldata_undecodable, target_not_allowed, method_not_allowed, chain_disabled, value_not_allowed,
  in_memory, PolicyRule,
}

-- `set.has(text)`; membership is all that a set of texts is asked.
unfoldable pub has_text : List Text → Text → Bool
has_text set t = any (λ s. s == t) set

unfoldable pub has_number : List ℕ → ℕ → Bool
has_number set n = any (λ m. m == n) set

unfoldable pub normalise_set : (Text → Option Text) → List Text → Option (List Text)
normalise_set get_address [] = some []
normalise_set get_address (a ∷ rest) =
    let set = normalise_set get_address rest in
    elim (get_address a) [
      | none ↦ none
      | some b ↦ elim set [ none ↦ none | some l ↦ some (to_lower b ∷ l) ]
    ]

unfoldable pub has : List Text → Text → Bool
unfolding has_text
has set address = has_text set (to_lower address)

unfoldable pub sender_allowlist : List Text → PolicyContext → PolicyDecision
sender_allowlist set c =
    if has set c.sender then allow else deny (text "sender-allowlist") sender_not_allowed

unfoldable pub sender_blocklist : List Text → PolicyContext → PolicyDecision
sender_blocklist set c =
    if has set c.sender then deny (text "sender-blocklist") sender_blocked else allow

-- The loop over the calls.
unfoldable pub check_targets : List Text → List DecodedCall → PolicyDecision
check_targets set [] = allow
check_targets set (call ∷ rest) =
    let later = check_targets set rest in
    if has set call.target then later else deny (text "target-allowlist") target_not_allowed

unfoldable pub target_allowlist : List Text → PolicyContext → PolicyDecision
target_allowlist set c = elim c.calls [
  | none ↦ deny (text "target-allowlist") calldata_undecodable
  | some calls ↦ check_targets set calls
]

unfoldable pub check_methods : List Text → Bool → List DecodedCall → PolicyDecision
check_methods set bare [] = allow
check_methods set bare (call ∷ rest) =
    let later = check_methods set bare rest in
    elim call.selector [
      | none ↦ if bare then later else deny (text "method-allowlist") method_not_allowed
      | some s ↦
          if has_text set (to_lower s)
          then later
          else deny (text "method-allowlist") method_not_allowed
    ]

unfoldable pub method_allowlist : List Text → Bool → PolicyContext → PolicyDecision
method_allowlist selectors bare c = elim c.calls [
  | none ↦ deny (text "method-allowlist") calldata_undecodable
  | some calls ↦ check_methods (map to_lower selectors) bare calls
]

unfoldable pub chain_enabled : List ℕ → PolicyContext → PolicyDecision
chain_enabled enabled c =
    if has_number enabled c.chain_id then allow else deny (text "chain-enabled") chain_disabled

unfoldable pub check_values : List DecodedCall → PolicyDecision
check_values [] = allow
check_values (call ∷ rest) =
    let later = check_values rest in
    if ltb 0 call.value then deny (text "no-value-transfer") value_not_allowed else later

unfoldable pub no_value_transfer : PolicyContext → PolicyDecision
no_value_transfer c = elim c.calls [
  | none ↦ deny (text "no-value-transfer") calldata_undecodable
  | some calls ↦ check_values calls
]

-- A rule of these classes: `cost = "pure"`, no reservation, and an `evaluate` that reads no world.
unfoldable pub in_memory_rule :
    {W : Type 0} → Text → (PolicyContext → PolicyDecision) → PolicyRule W
in_memory_rule name decide = record {
  name = name;
  cost = in_memory;
  evaluate = λ c w. (ok (decide c), w);
  release = none;
}
