-- ===== src/Examples/Sponsorships.antt =====
-- Whole sponsorships, over the in-memory store and byte lists.
use paymaster.Common.{
  ◌≡◌, ◌≢◌, refl, Option, none, some, List, [], ◌∷◌, ◌++◌, map, All, nat_eq, list_eq,
}
use paymaster.Common.JsMap
use paymaster.Common.Text.{text}
use paymaster.UserOperation.{Hex}
use paymaster.CallData.{
  AccountExecution, execute_batch, decode_call_targets, decode_batch, to_calls, to_call,
}
use paymaster.Policy.Context.{DecodedCall}
use paymaster.Policy.Source.{
  PolicySource, PolicyReloadResult, reload, add_all, key_of, policy_of, reload-own,
}
use paymaster.Policy.Quota.InMemory.{Counters}
use paymaster.Sponsor.Request.{UnpackedUserOperation}
use paymaster.Examples.Bytes.{byte_lists, bytes}
use paymaster.Examples.Policies.{open_policy}

abbrev pub an_op : UnpackedUserOperation
an_op = record {
  sender = bytes 3 20;
  nonce = 1;
  factory = none;
  factory_data = none;
  call_data = bytes 1 8;
  call_gas_limit = 100000;
  verification_gas_limit = 200000;
  pre_verification_gas = 50000;
  max_fee_per_gas = 7;
  max_priority_fee_per_gas = 2;
  signature = none;
}

abbrev a_batch : Hex → Option AccountExecution
a_batch h =
    some (execute_batch (bytes 8 20 ∷ bytes 9 20 ∷ []) (0 ∷ 5 ∷ []) (bytes 1 8 ∷ bytes 2 3 ∷ []))

abbrev batch_calls : List DecodedCall
batch_calls =
    record { target = bytes 8 20; value = 0; selector = some (bytes 1 4); payload = bytes 1 8 }
    ∷ record { target = bytes 9 20; value = 5; selector = none; payload = bytes 2 3 }
    ∷ []

decode_batch_example :
    (map (λ (c : DecodedCall). c.target) batch_calls ≡ bytes 8 20 ∷ bytes 9 20 ∷ [])
    × (map (λ (c : DecodedCall). c.value) batch_calls ≡ 0 ∷ 5 ∷ [])
    × (map (λ (c : DecodedCall). c.payload) batch_calls ≡ bytes 1 8 ∷ bytes 2 3 ∷ [])
decode_batch_example =
    decode_batch byte_lists a_batch (bytes 1 8) _ _ _ batch_calls refl
      (unfold decode_call_targets to_calls to_call in refl)

abbrev nothing_loaded : PolicySource Counters
nothing_loaded = record { policies = []; loaded_at = 0; generation = 0 }

abbrev pub one_loaded : PolicySource Counters
one_loaded = record {
  policies = (text "acme" ++ 0 ∷ text "open", open_policy) ∷ [];
  loaded_at = 900;
  generation = 1;
}

abbrev load_result : PolicyReloadResult
load_result = record { count = 1; generation = 1; loaded_at = 900 }

letters : All (λ c. c ≢ 0) (text "acme")
letters = ((λ e. cc), ((λ e. cc), ((λ e. cc), ((λ e. cc), tt))))

reload-own_example : (open_policy.tenant_id ≡ text "acme") × (open_policy.id ≡ text "open")
reload-own_example =
    reload-own 900 (open_policy ∷ []) nothing_loaded one_loaded load_result (text "acme")
      (text "open") open_policy (letters, tt) letters
      (unfold reload add_all key_of JsMap.get JsMap.put in refl)
      (unfold policy_of key_of JsMap.get in refl)
