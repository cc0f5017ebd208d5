-- ===== src/Policy/Factory/Reserved.antt =====
-- The names that backend/src/policy/policyFactory.ts reserves for the ceilings of the plans
-- (backend/src/policy/planCeilings.ts).
use paymaster.Common.{ℕ, ◌≡◌, ◌⊎◌, some, [], ◌∷◌, ◌++◌, list_eq, nat_eq}
use paymaster.Common.Text.{Text, text, colon, decimal}
use paymaster.Policy.Rules.QuotaRule.{QuotaRule, QuotaSubject, QuotaSubjectFields}

-- The names of the two ceilings, behind the reserved prefix.
abbrev pub IsCeiling : Text → Type 0
IsCeiling c = (c ≡ text "operations-per-day") ⊎ (c ≡ text "wei-per-day")

-- The text behind a rule's prefix: none, or a colon and what identifies the subject.
data Behind (subject : QuotaSubject) (f : QuotaSubjectFields) : Text → Type 0 where
  nothing : Behind subject f []
  numbered : (n : ℕ) (s : Text) → Behind subject f (colon ∷ (decimal n ++ s))
  of_ip : (i : Text) → f.client_ip ≡ some i → Behind subject f (colon ∷ i)
  of_key : (i : Text) → f.api_key_id ≡ some i → Behind subject f (colon ∷ i)

record IsPrefixed (subject : QuotaSubject) (f : QuotaSubjectFields) (prefix k : Text) : Type 0 where
  rest : Text
  whole : k ≡ prefix ++ rest
  behind : Behind subject f rest
