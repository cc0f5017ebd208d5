-- ===== src/Chain/Registry.antt =====
-- backend/src/chain/chainRegistry.ts: the adapters of the configured chains, by id.
use paymaster.Common.{ℕ, ◌≡◌, Bool, true, Option, none, some, if◌then◌else◌, nat_eq, arith}
use paymaster.Common.Results.{Result, ok, err}
use paymaster.Common.JsMap
use paymaster.Common.JsMap.{JsMap}
use paymaster.Common.Text.{Text}
use paymaster.Fault.{Fault, unknown_chain, chain_is_disabled}
use paymaster.Signature.Layout.{PaymasterKind}

-- The fields of `ChainConfig` that a sponsorship reads.
pub record ChainConfig : Type 0 where
  pub chain_id : ℕ
  pub entry_point : Text
  pub paymaster : Text
  pub paymaster_kind : PaymasterKind
  pub enabled : Bool

abbrev pub ChainRegistry : Type 0
ChainRegistry = JsMap ℕ ChainConfig

served : Option ChainConfig → Result Fault ChainConfig
served none = err unknown_chain
served (some config) = if config.enabled then ok config else err chain_is_disabled

unfoldable pub chain_of : ℕ → ChainRegistry → Result Fault ChainConfig
unfolding served
chain_of chain_id chains = served (JsMap.get chain_id chains)

known : Option ChainConfig → Result Fault ChainConfig
known none = err unknown_chain
known (some config) = ok config

unfoldable pub chain_even_if_disabled : ℕ → ChainRegistry → Result Fault ChainConfig
unfolding known
chain_even_if_disabled chain_id chains = known (JsMap.get chain_id chains)

served-ok :
    (o : Option ChainConfig) (config : ChainConfig)
    → served o ≡ ok config
    → (o ≡ some config) × (config.enabled ≡ true)
unfolding served
served-ok none config e = cc
served-ok (some d) config e = ground arith

-- Only a configured and enabled chain is served.
pub chain_of-enabled :
    (chain_id : ℕ) (chains : ChainRegistry) (config : ChainConfig)
    → chain_of chain_id chains ≡ ok config
    → (JsMap.get chain_id chains ≡ some config) × (config.enabled ≡ true)
unfolding chain_of
chain_of-enabled chain_id chains config e = served-ok (JsMap.get chain_id chains) config e
