-- ===== src/Reconciliation/Ledger/Movements.antt =====
-- What the events of a window come to, tenant by tenant.
use paymaster.Common.{
  ℕ, ◌≡◌, refl, sym, ap, ◌∙◌, Bool, true, false, not, ◌&&◌, ◌||◌, Option, none, some, List, [], ◌∷◌,
  ◌++◌, any, keep, ◌==◌, list_eq, nat_eq, list_beq_iff, if◌then◌else◌, or_default, arith,
  Bool-cases, inl, inr,
}
use paymaster.Common.Int.{ℤ, pos, ◌+ℤ◌, +ℤ_assoc, zero-+ℤ, +ℤ-zero}
use paymaster.Common.JsMap
use paymaster.Common.JsMap.{JsMap}
use paymaster.Common.Text.{Text}
use paymaster.Reconciliation.Ledger.{
  TenantLedgerEvent, Movement, tenant_key_of, move, movements, keys_of, keys_to_check, delta_of,
  reported_of,
}

-- The sum of a tenant's deposits, withdrawals and charges.
unfoldable pub moved_by : Text → List TenantLedgerEvent → ℤ
moved_by key [] = pos 0
moved_by key (event ∷ events) =
    (if tenant_key_of event == key then event.delta_wei else pos 0) +ℤ moved_by key events

-- The balance in a tenant's last event, or what was known before.
unfoldable pub last_of : Text → Option ℕ → List TenantLedgerEvent → Option ℕ
last_of key o [] = o
last_of key o (event ∷ events) =
    last_of key (if tenant_key_of event == key then some event.balance_after_wei else o) events

unfoldable pub touched : Text → List TenantLedgerEvent → Bool
touched key = any (λ (event : TenantLedgerEvent). tenant_key_of event == key)

abbrev pub is_some {ℓ} : {A : Type ℓ} → Option A → Bool
is_some none = false
is_some (some a) = true

or_default-delta :
    (o : Option Movement)
    → (or_default o (record { delta = pos 0; last_reported = 0 })).delta ≡ delta_of o
or_default-delta none = refl
or_default-delta (some m) = refl

-- One event, on one tenant.
module _ (key : Text) (event : TenantLedgerEvent) (m : JsMap Text Movement) where
  abbrev after_event : Movement
  after_event = record {
    delta =
        (or_default (JsMap.get (tenant_key_of event) m)
          (record { delta = pos 0; last_reported = 0 })).delta
        +ℤ event.delta_wei;
    last_reported = event.balance_after_wei;
  }

  get-move :
      JsMap.get key (move event m)
      ≡ (if tenant_key_of event == key then some after_event else JsMap.get key m)
  unfolding move
  get-move = JsMap.get-put (tenant_key_of event) key after_event m

  delta-move :
      delta_of (JsMap.get key (move event m))
      ≡ delta_of (JsMap.get key m)
        +ℤ (if tenant_key_of event == key then event.delta_wei else pos 0)
  delta-move =
      ap delta_of get-move
      ∙ by_test (tenant_key_of event == key) (λ same.
        or_default-delta (JsMap.get (tenant_key_of event) m)
        ∙ ap (λ k. delta_of (JsMap.get k m)) ((list_beq_iff (tenant_key_of event) key).0 same))
    where
      by_test :
          (b : Bool)
          → (b ≡ true
              → (or_default
                  (JsMap.get (tenant_key_of event) m)
                  (record { delta = pos 0; last_reported = 0 })).delta
                ≡ delta_of (JsMap.get key m))
          → delta_of (if b then some after_event else JsMap.get key m)
            ≡ delta_of (JsMap.get key m) +ℤ (if b then event.delta_wei else pos 0)
      by_test true h = ap (λ d. d +ℤ event.delta_wei) (h refl)
      by_test false h = sym (+ℤ-zero (delta_of (JsMap.get key m)))

  reported-move : reported_of (JsMap.get key (move event m)) ≡ (
      if tenant_key_of event == key
      then some event.balance_after_wei
      else reported_of (JsMap.get key m))
  reported-move = ap reported_of get-move ∙ by_test (tenant_key_of event == key) (JsMap.get key m)
    where
      by_test :
          (b : Bool) (o : Option Movement)
          → reported_of (if b then some after_event else o)
            ≡ (if b then some event.balance_after_wei else reported_of o)
      by_test true o = refl
      by_test false o = refl

  is_some-move :
      is_some (JsMap.get key (move event m))
      ≡ (is_some (JsMap.get key m) || tenant_key_of event == key)
  is_some-move = ap is_some get-move ∙ by_test (tenant_key_of event == key) (JsMap.get key m)
    where
      by_test :
          (b : Bool) (o : Option Movement)
          → is_some (if b then some after_event else o) ≡ (is_some o || b)
      by_test true none = refl
      by_test true (some x) = refl
      by_test false none = refl
      by_test false (some x) = refl

delta-movements :
    (key : Text) (events : List TenantLedgerEvent) (m : JsMap Text Movement)
    → delta_of (JsMap.get key (movements events m))
      ≡ delta_of (JsMap.get key m) +ℤ moved_by key events
unfolding movements moved_by
delta-movements key [] m = sym (+ℤ-zero (delta_of (JsMap.get key m)))
delta-movements key (event ∷ events) m =
    delta-movements key events (move event m)
    ∙ ap (λ d. d +ℤ moved_by key events) (delta-move key event m)
    ∙ +ℤ_assoc (delta_of (JsMap.get key m)) _ _

reported-movements :
    (key : Text) (events : List TenantLedgerEvent) (m : JsMap Text Movement)
    → reported_of (JsMap.get key (movements events m))
      ≡ last_of key (reported_of (JsMap.get key m)) events
unfolding movements last_of
reported-movements key [] m = refl
reported-movements key (event ∷ events) m =
    reported-movements key events (move event m)
    ∙ ap (λ o. last_of key o events) (reported-move key event m)

or_assoc : (a b c : Bool) → ((a || b) || c) ≡ (a || (b || c))
or_assoc true b c = refl
or_assoc false b c = refl

is_some-movements :
    (key : Text) (events : List TenantLedgerEvent) (m : JsMap Text Movement)
    → is_some (JsMap.get key (movements events m))
      ≡ (is_some (JsMap.get key m) || touched key events)
unfolding movements touched
is_some-movements key [] m = elim (Bool-cases (is_some (JsMap.get key m))) [
  | inl e ↦ rw e refl
  | inr e ↦ rw e refl
]
is_some-movements key (event ∷ events) m =
    is_some-movements key events (move event m)
    ∙ ap (λ b. b || touched key events) (is_some-move key event m)
    ∙ or_assoc (is_some (JsMap.get key m)) (tenant_key_of event == key) (touched key events)

-- A whole window, from nothing: the net movement, the last report, and whether there is any.
pub delta_lem :
    (key : Text) (events : List TenantLedgerEvent)
    → delta_of (JsMap.get key (movements events [])) ≡ moved_by key events
delta_lem key events =
    delta-movements key events []
    ∙ ap (λ (o : Option Movement). delta_of o +ℤ moved_by key events) (JsMap.get-nil key)
    ∙ zero-+ℤ (moved_by key events)

pub reported_lem :
    (key : Text) (events : List TenantLedgerEvent)
    → reported_of (JsMap.get key (movements events [])) ≡ last_of key none events
reported_lem key events =
    reported-movements key events []
    ∙ ap (λ (o : Option Movement). last_of key (reported_of o) events) (JsMap.get-nil key)

touched_lem :
    (key : Text) (events : List TenantLedgerEvent)
    → is_some (JsMap.get key (movements events [])) ≡ touched key events
touched_lem key events =
    is_some-movements key events []
    ∙ ap (λ (o : Option Movement). is_some o || touched key events) (JsMap.get-nil key)

any-append {ℓ} :
    {A : Type ℓ} (p : A → Bool) (xs ys : List A) → any p (xs ++ ys) ≡ (any p xs || any p ys)
any-append p [] ys = refl
any-append p (x ∷ xs) ys = ap (λ b. p x || b) (any-append p xs ys) ∙ sym (or_assoc (p x) _ _)

any-keep :
    (key : Text) (p : Text → Bool) (xs : List Text)
    → any (λ k. k == key) (keep p xs) ≡ (p key && any (λ k. k == key) xs)
any-keep key p [] = ground arith
any-keep key p (x ∷ xs) = elim (Bool-cases (x == key)) [
  | inl same ↦
      let e : x ≡ key = (list_beq_iff x key).0 same in
      elim (Bool-cases (p x)) [
        | inl kept ↦ rw (kept, same) (sym (ap (λ k. p k && true) (sym e) ∙ rw kept refl))
        | inr gone ↦
            rw (gone, same)
              (any-keep key p xs
                ∙ ap (λ k. p k && any (λ k. k == key) xs) (sym e)
                ∙ rw gone (sym (ap (λ k. p k && true) (sym e) ∙ rw gone refl)))
      ]
  | inr other ↦ elim (Bool-cases (p x)) [
    | inl kept ↦ rw (kept, other) (any-keep key p xs)
    | inr gone ↦ rw (gone, other) (any-keep key p xs)
  ]
]

any-keys_of :
    {V : Type 0} (key : Text) (m : JsMap Text V)
    → any (λ k. k == key) (keys_of m) ≡ is_some (JsMap.get key m)
unfolding JsMap.get
any-keys_of key [] = refl
any-keys_of key ((k, v) ∷ m) = elim (Bool-cases (k == key)) [
  | inl same ↦ rw same refl
  | inr other ↦ rw other (any-keys_of key m)
]

absorb : (a b c : Bool) → (a || (if b then not a && c else false)) ≡ (a || b && c)
absorb true b c = refl
absorb false true c = refl
absorb false false c = refl

any-if :
    (key : Text) (b : Bool) (xs : List Text)
    → any (λ k. k == key) (if b then xs else []) ≡ (if b then any (λ k. k == key) xs else false)
any-if key true xs = refl
any-if key false xs = refl

-- A key is checked if it moved in the window, or if it is known and the window reaches the head.
pub keys_to_check_lem :
    (key : Text) (caught_up : Bool) (events : List TenantLedgerEvent) (known : JsMap Text ℕ)
    → any (λ k. k == key) (keys_to_check caught_up (movements events []) known)
      ≡ (touched key events || caught_up && is_some (JsMap.get key known))
unfolding keys_to_check
keys_to_check_lem key caught_up events known =
    let m = movements events [] in
    let moved : any (λ k. k == key) (keys_of m) ≡ touched key events =
      any-keys_of key m ∙ touched_lem key events in
    any-append (λ k. k == key) (keys_of m) _
    ∙ ap (λ b. any (λ k. k == key) (keys_of m) || b)
        (any-if key caught_up _
          ∙ ap (λ b. if caught_up then b else false)
              (any-keep key (λ key. not (any (λ k. k == key) (keys_of m))) (keys_of known)))
    ∙ absorb (any (λ k. k == key) (keys_of m)) caught_up (any (λ k. k == key) (keys_of known))
    ∙ λ i. moved i || caught_up && any-keys_of key known i
