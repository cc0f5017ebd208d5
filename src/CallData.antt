-- ===== src/CallData.antt =====
-- backend/src/policy/callData.ts: the calls that an account's `callData` makes. viem's
-- `decodeFunctionData` on the two known shapes is a parameter, and throws (`none`) on any other.
use paymaster.Common.{
  ℕ, ◌≡◌, refl, ap, Bool, ◌||◌, not, Option, none, some, List, [], ◌∷◌, map, length, ltb, ◌==◌,
  nat_eq, if◌then◌else◌, arith,
}
use paymaster.Common.Text.{Text}
use paymaster.UserOperation.{Hex}
use paymaster.Viem.{Viem}
use paymaster.Policy.Context.{DecodedCall}

-- What `decodeFunctionData` returns for the two functions of the account's interface.
pub data AccountExecution : Type 0 where
  execute : Text → ℕ → Hex → AccountExecution
  execute_batch : List Text → List ℕ → List Hex → AccountExecution

abbrev pub selector_size : ℕ
selector_size = 4

module _ (v : Viem) where
  -- viem's `slice` throws where its offsets are out of range; the test before it excludes that.
  unfoldable pub to_call : Text → ℕ → Hex → DecodedCall
  to_call target value bytes = record {
    target = target;
    value = value;
    selector = if ltb (v.size bytes) selector_size then none else v.slice bytes 0 selector_size;
    payload = bytes;
  }

  -- `dests.map((dest, i) => toCall(dest, values[i]!, funcs[i]!))`, on lists of one length
  unfoldable pub to_calls : List Text → List ℕ → List Hex → List DecodedCall
  to_calls (d ∷ ds) (n ∷ ns) (f ∷ fs) = to_call d n f ∷ to_calls ds ns fs
  to_calls _ _ _ = []

  calls_of : Option AccountExecution → Option (List DecodedCall)
  unfolding to_calls
  calls_of none = none
  calls_of (some (execute d n f)) = some (to_call d n f ∷ [])
  calls_of (some (execute_batch ds ns fs)) =
      if not (length ds == length ns) || not (length ds == length fs)
      then none
      else some (to_calls ds ns fs)

  unfoldable pub decode_call_targets :
      (Hex → Option AccountExecution) → Hex → Option (List DecodedCall)
  unfolding calls_of
  decode_call_targets decode_function_data call_data =
      if ltb (v.size call_data) selector_size
      then none
      else calls_of (decode_function_data call_data)

  to_calls-targets :
      (ds : List Text) (ns : List ℕ) (fs : List Hex)
      → length ds ≡ length ns
      → length ds ≡ length fs
      → (map (λ (c : DecodedCall). c.target) (to_calls ds ns fs) ≡ ds)
        × (map (λ (c : DecodedCall). c.value) (to_calls ds ns fs) ≡ ns)
        × (map (λ (c : DecodedCall). c.payload) (to_calls ds ns fs) ≡ fs)
  unfolding to_calls to_call
  to_calls-targets [] [] [] p q = (refl, refl, refl)
  to_calls-targets [] (n ∷ ns) fs p q = absurd (omega (arith, p))
  to_calls-targets [] [] (f ∷ fs) p q = absurd (omega (arith, q))
  to_calls-targets (d ∷ ds) [] fs p q = absurd (omega (arith, p))
  to_calls-targets (d ∷ ds) (n ∷ ns) [] p q = absurd (omega (arith, q))
  to_calls-targets (d ∷ ds) (n ∷ ns) (f ∷ fs) p q =
      let (t, n', b) = to_calls-targets ds ns fs (omega (arith, p)) (omega (arith, q)) in
      (ap (λ l. d ∷ l) t, ap (λ l. n ∷ l) n', ap (λ l. f ∷ l) b)

  known_batch :
      (small : Bool) (o : Option AccountExecution) (ds : List Text) (ns : List ℕ) (fs : List Hex)
      (calls : List DecodedCall)
      → o ≡ some (execute_batch ds ns fs)
      → (if small then none else calls_of o) ≡ some calls
      → (length ds ≡ length ns) × (length ds ≡ length fs) × (to_calls ds ns fs ≡ calls)
  unfolding calls_of
  known_batch small o ds ns fs calls e h =
      let k : (if small then none else calls_of (some (execute_batch ds ns fs))) ≡ some calls =
        rw e at h in
      (ground arith, ground arith, ground arith)

  -- A batch is decoded to exactly its calls, none of them left out: where the calls of a batch are
  -- known at all, they are the batch's targets, values and payloads, in order.
  pub decode_batch :
      (decode_function_data : Hex → Option AccountExecution) (call_data : Hex) (ds : List Text)
      (ns : List ℕ) (fs : List Hex) (calls : List DecodedCall)
      → decode_function_data call_data ≡ some (execute_batch ds ns fs)
      → decode_call_targets decode_function_data call_data ≡ some calls
      → (map (λ (c : DecodedCall). c.target) calls ≡ ds)
        × (map (λ (c : DecodedCall). c.value) calls ≡ ns)
        × (map (λ (c : DecodedCall). c.payload) calls ≡ fs)
  unfolding decode_call_targets
  decode_batch decode_function_data call_data ds ns fs calls e h =
      let (p, q, same) =
        known_batch (ltb (v.size call_data) selector_size) (decode_function_data call_data) ds ns fs
          calls e h in
      rw (← same) (to_calls-targets ds ns fs p q)
