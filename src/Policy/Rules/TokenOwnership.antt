-- ===== src/Policy/Rules/TokenOwnership.antt =====
-- backend/src/policy/rules/tokenOwnership.ts: a balance that is read from a chain. The reader, a
-- port over the chains' RPC, is a parameter: it answers a balance or throws.
use paymaster.Common.{ℕ, Option, none, some, leb, if◌then◌else◌, or_default, nat_eq}
use paymaster.Common.Results.{Result, ok, err}
use paymaster.Common.JsMap
use paymaster.Common.JsMap.{JsMap}
use paymaster.Common.Text.{Text, text}
use paymaster.Policy.Context.{
  PolicyContext, PolicyDecision, allow, deny, token_balance_insufficient, rule_error, network,
  PolicyRule,
}

-- The standard only words a message, and is left out.
pub record TokenOwnershipConfig : Type 0 where
  pub token : Option Text
  pub token_by_chain : JsMap ℕ Text
  pub min_balance : Option ℕ

-- `this.#byChain.get(context.chainId) ?? this.#default`
unfoldable pub token_for : TokenOwnershipConfig → ℕ → Option Text
token_for config chain_id = elim (JsMap.get chain_id config.token_by_chain) [
  | none ↦ config.token
  | some t ↦ some t
]

module _ (balance_of : ℕ → Text → Text → Result Text ℕ) where
  judge_balance : ℕ → Result Text ℕ → PolicyDecision
  judge_balance min_balance (err _) = deny (text "token-ownership") rule_error
  judge_balance min_balance (ok balance) =
      if leb min_balance balance
      then allow
      else deny (text "token-ownership") token_balance_insufficient

  unfoldable pub token_ownership : TokenOwnershipConfig → PolicyContext → PolicyDecision
  unfolding judge_balance token_for
  token_ownership config c = elim (token_for config c.chain_id) [
    | none ↦ deny (text "token-ownership") token_balance_insufficient
    | some token ↦
        judge_balance (or_default config.min_balance 1) (balance_of c.chain_id token c.sender)
  ]

  unfoldable pub token_ownership_rule : {W : Type 0} → TokenOwnershipConfig → PolicyRule W
  token_ownership_rule config = record {
    name = text "token-ownership";
    cost = network;
    evaluate = λ c w. (ok (token_ownership config c), w);
    release = none;
  }
