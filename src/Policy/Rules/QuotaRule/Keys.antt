-- ===== src/Policy/Rules/QuotaRule/Keys.antt =====
-- Whose counter a key of backend/src/policy/rules/quotaRules.ts names.
use paymaster.Common.{
  ℕ, ◌≡◌, ◌≢◌, refl, sym, ◌∙◌, Option, none, some, List, [], ◌∷◌, ◌++◌, append-nil, append_assoc,
  All,
}
use paymaster.Common.Text.{Text, text, colon, decimal, to_lower, cut_at_first}
use paymaster.Policy.Context.{DecodedCall}
use paymaster.Policy.Rules.QuotaRule.{
  QuotaRule, QuotaSubject, QuotaSubjectFields, wallet, chain, global, ip, api_key, target,
  key_prefix, key_on, one_target, key_for,
}

abbrev pub slash : ℕ
slash = b'/'

-- A tenant id of its own: not empty, and without a slash (`TENANT_ID_PATTERN`).
pub record IsTenantName (namespace : Text) : Type 0 where
  pub not_empty : namespace ≢ []
  pub no_slash : All (λ c. c ≢ slash) namespace

optional-prefix :
    (prefix : Text) (o : Option Text) (k : Text)
    → (elim o [ none ↦ none | some i ↦ some (prefix ++ colon ∷ i) ]) ≡ some k
    → (rest : Text) × (k ≡ prefix ++ rest)
optional-prefix prefix none k h = cc
optional-prefix prefix (some i) k h = (colon ∷ i, cc)

one_target-prefix :
    (prefix : Text) (chain_id : ℕ) (calls : Option (List DecodedCall)) (k : Text)
    → one_target prefix chain_id calls ≡ some k
    → (rest : Text) × (k ≡ prefix ++ rest)
unfolding one_target
one_target-prefix prefix chain_id none k h = cc
one_target-prefix prefix chain_id (some []) k h = cc
one_target-prefix prefix chain_id (some (call ∷ [])) k h =
    (colon ∷ (decimal chain_id ++ colon ∷ to_lower call.target), cc)
one_target-prefix prefix chain_id (some (call ∷ other ∷ calls)) k h = cc

-- Every key begins with its rule's prefix.
key_on-prefix :
    (subject : QuotaSubject) (prefix : Text) (f : QuotaSubjectFields) (k : Text)
    → key_on subject prefix f ≡ some k
    → (rest : Text) × (k ≡ prefix ++ rest)
unfolding key_on
key_on-prefix wallet prefix f k h = (colon ∷ (decimal f.chain_id ++ colon ∷ to_lower f.sender), cc)
key_on-prefix chain prefix f k h = (colon ∷ decimal f.chain_id, cc)
key_on-prefix global prefix f k h = ([], cc (append-nil prefix))
key_on-prefix ip prefix f k h = optional-prefix prefix f.client_ip k h
key_on-prefix api_key prefix f k h = optional-prefix prefix f.api_key_id k h
key_on-prefix target prefix f k h = one_target-prefix prefix f.chain_id f.calls k h

pub key_prefix-shape :
    (namespace name rest : Text)
    → IsTenantName namespace
    → key_prefix namespace name ++ rest ≡ text "quota:" ++ (namespace ++ slash ∷ (name ++ rest))
unfolding key_prefix
key_prefix-shape [] name rest h = absurd (h.not_empty refl)
key_prefix-shape (c ∷ namespace) name rest h = simp append_assoc

-- Two tenants' quotas never meet on one counter, whatever they call them and whatever they count:
-- rules of two tenants, neither the default one, that produce the same key are of the same tenant.
pub tenants_apart :
    (r q : QuotaRule) (f g : QuotaSubjectFields) (k : Text)
    → IsTenantName r.namespace
    → IsTenantName q.namespace
    → key_for r f ≡ some k
    → key_for q g ≡ some k
    → r.namespace ≡ q.namespace
unfolding key_for
tenants_apart r q f g k hr hq e d =
    let (rest, p) = key_on-prefix r.subject (key_prefix r.namespace r.name) f k e in
    let (more, m) = key_on-prefix q.subject (key_prefix q.namespace q.name) g k d in
    (cut_at_first slash r.namespace q.namespace (r.name ++ rest) (q.name ++ more) hr.no_slash
      hq.no_slash
      (drop_head (
        sym (key_prefix-shape r.namespace r.name rest hr)
        ∙ sym p
        ∙ m
        ∙ key_prefix-shape q.namespace q.name more hq))).0
  where
    drop_head : {s t : Text} → text "quota:" ++ s ≡ text "quota:" ++ t → s ≡ t
    drop_head h = cc

-- The default tenant is not kept apart: a rule of it that is named `tenant/name` counts on the very
-- counter of that tenant's rule `name`.
pub default_tenant_meets :
    (r : QuotaRule) (c : ℕ) (namespace name : Text) (f : QuotaSubjectFields)
    → key_for (record r { namespace = []; name = c ∷ namespace ++ slash ∷ name }) f
      ≡ key_for (record r { namespace = c ∷ namespace; name = name }) f
unfolding key_for key_prefix
default_tenant_meets r c namespace name f = refl
