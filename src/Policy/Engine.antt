-- ===== src/Policy/Engine.antt =====
-- backend/src/policy/engine.ts: rules in order of cost, the first denial wins, and a refused request
-- gives back what it had reserved.
pub mod Order
pub mod Decision
pub mod Compensation
pub mod Refund
pub mod Asked
use paymaster.Common.{
  ℕ, suc, ◌+◌, ◌≡◌, Bool, true, false, not, ◌&&◌, Option, none, some, List, [], ◌∷◌, ◌++◌, map, ltb,
  leb, keep, length, if◌then◌else◌, nat_eq, ◌==◌,
}
use paymaster.Common.Results.{Result, ok, err}
use paymaster.Common.Text.{Text, text}
use paymaster.Policy.Context.{
  PolicyContext, PolicyDecision, allow, deny, allowed, rule_error, rule_cost_order, Exec,
  PolicyRule, is_reserving, Policy,
}

pub record PolicyEvaluation : Type 0 where
  pub decision : PolicyDecision
  pub policy_id : Text
  pub evaluated : List Text

-- Where the loop over the rules stands when it ends.
pub record Pass (W : Type 0) : Type 0 where
  pub decision : PolicyDecision
  pub evaluated : List Text
  pub reserved : List (PolicyRule W)
  pub world : W

-- The world, and what the observer has been told.
pub record Engine (W : Type 0) : Type 0 where
  pub world : W
  pub observed : List PolicyEvaluation

module _ {W : Type 0} where
  -- `map((rule, index) => …)`
  number_rules : ℕ → List (PolicyRule W) → List (PolicyRule W × ℕ)
  number_rules i [] = []
  number_rules i (r ∷ rs) = (r, i) ∷ number_rules (suc i) rs

  -- The comparator is negative or zero: by cost, and then by the index.
  unfoldable pub before : PolicyRule W × ℕ → PolicyRule W × ℕ → Bool
  before (a, i) (b, j) =
      let x = rule_cost_order a.cost in
      let y = rule_cost_order b.cost in if x == y then leb i j else ltb x y

  -- `Array.prototype.sort`: the comparator is a total order, so every sort gives one result.
  insert_by_cost : PolicyRule W × ℕ → List (PolicyRule W × ℕ) → List (PolicyRule W × ℕ)
  unfolding before
  insert_by_cost x [] = x ∷ []
  insert_by_cost x (y ∷ ys) =
      let later = insert_by_cost x ys in if before x y then x ∷ y ∷ ys else y ∷ later

  sort_by_cost : List (PolicyRule W × ℕ) → List (PolicyRule W × ℕ)
  unfolding insert_by_cost
  sort_by_cost [] = []
  sort_by_cost (x ∷ xs) = insert_by_cost x (sort_by_cost xs)

  unfoldable pub order_rules : List (PolicyRule W) → List (PolicyRule W)
  unfolding sort_by_cost number_rules
  order_rules rules = map (λ p. p.0) (sort_by_cost (number_rules 0 rules))

  -- A throw is a denial.
  unfoldable pub settle : Text → Result Text PolicyDecision × W → PolicyDecision × W
  settle name (ok d, w) = (d, w)
  settle name (err message, w) = (deny name rule_error, w)

  unfoldable pub evaluate_rule : PolicyRule W → PolicyContext → W → PolicyDecision × W
  unfolding settle
  evaluate_rule r c w = settle r.name (r.evaluate c w)

  unfoldable pub run_rules :
      List (PolicyRule W) → PolicyContext → List Text → List (PolicyRule W) → W → Pass W
  unfolding evaluate_rule is_reserving
  run_rules [] c evaluated reserved w = record {
    decision = allow;
    evaluated = evaluated;
    reserved = reserved;
    world = w;
  }
  run_rules (r ∷ rs) c evaluated reserved w =
      let (d, w') = evaluate_rule r c w in
      elim d [
        | allow ↦
            run_rules rs c (evaluated ++ r.name ∷ [])
              (if is_reserving r then reserved ++ r ∷ [] else reserved) w'
        | deny name code ↦ record {
          decision = deny name code;
          evaluated = evaluated ++ r.name ∷ [];
          reserved = reserved;
          world = w';
        }
      ]

  unfoldable pub release_rule : PolicyRule W → PolicyContext → Exec W (Unit {0})
  release_rule r c w = elim r.release [ none ↦ (ok tt, w) | some give_back ↦ give_back c w ]

  -- A release that failed is told to the observer, and the others go on.
  note_release : Text → Result Text (Unit {0}) × W → List PolicyEvaluation → Engine W
  note_release name (ok _, w) observed = record { world = w; observed = observed }
  note_release name (err message, w) observed = record {
    world = w;
    observed =
        observed
        ++ record {
          decision = deny name rule_error;
          policy_id = text "<release>";
          evaluated = name ∷ [];
        }
          ∷ [];
  }

  unfoldable pub release_all : List (PolicyRule W) → PolicyContext → Engine W → Engine W
  unfolding release_rule note_release
  release_all [] c e = e
  release_all (r ∷ rs) c e =
      release_all rs c (note_release r.name (release_rule r c e.world) e.observed)

  unfoldable pub evaluate : Policy W → PolicyContext → Engine W → PolicyEvaluation × Engine W
  unfolding order_rules run_rules release_all
  evaluate policy c e =
      let p = run_rules (order_rules policy.rules) c [] [] e.world in
      let passed = record e { world = p.world } in
      let left =
        if not (allowed p.decision) && ltb 0 (length p.reserved)
        then release_all p.reserved c passed
        else passed in
      let evaluation : PolicyEvaluation = record {
        decision = p.decision;
        policy_id = policy.id;
        evaluated = p.evaluated;
      } in
      (evaluation, record left { observed = left.observed ++ evaluation ∷ [] })

  unfoldable pub release_reservations : Policy W → PolicyContext → Engine W → Engine W
  unfolding release_all is_reserving
  release_reservations policy c e = release_all (keep is_reserving policy.rules) c e
