-- ===== src/Providers/Failback/Chain.antt =====
-- The chain of models and the providers to avoid (src/providers/failback.ts).
use nightshift0s.Prelude.{
  ℕ, ◌≤◌, String, ◌≡◌, ◌≢◌, ◌↔◌, refl, ap, subst, inl, inr, Bool, true, false, Option, none, some,
  List, [], ◌∷◌, ◌++◌, ◌==◌, string_Eq, eq_iff, eq_self, ltb, ltb→lt, contains, any, ◌||◌, ◌&&◌,
  arith, Bool-cases,
}
use nightshift0s.Providers.Failback.{
  FailureClass, retryable, rate_limit, auth, context_overflow, unknown, model_family,
  failback_model, FailbackInput, FailbackDecision, next_in_chain, PriorCoderRun, failed_providers,
  avoid_providers, from_chain, exhausted, retry_or_failback, by_policy, failback_decision,
  allowed_transition,
}

-- In this chain the second model comes directly after the first place of the first one.
pub data Follows : String → String → List String → Type 0 where
  here : {a b : String} {chain : List String} → Follows a b (a ∷ b ∷ chain)
  there :
      {a b m : String} {chain : List String} → m ≢ a → Follows a b chain → Follows a b (m ∷ chain)

head-Follows :
    (m k : String) (chain : List String) {model n : String}
    → m ≡ model
    → k ≡ n
    → Follows model n (m ∷ k ∷ chain)
head-Follows m k chain {n = n} same next =
    subst (λ x. Follows x n (m ∷ k ∷ chain)) same
      (subst (λ x. Follows m x (m ∷ k ∷ chain)) next here)

next-Follows :
    (model : String) (chain : List String) {n : String}
    → next_in_chain model chain ≡ some (some n)
    → Follows model n chain
unfolding next_in_chain
next-Follows model [] h = cc
next-Follows model (m ∷ []) h = ground arith
next-Follows model (m ∷ k ∷ chain) {n = n} h = elim (Bool-cases (m == model)) [
  | inl same ↦ head-Follows m k chain ((eq_iff m model).0 same) (ground (arith, same))
  | inr other ↦
      there (λ e. ground (arith, other, e, eq_self model))
        (next-Follows model (k ∷ chain) {n = n} (ground (arith, other)))
]

Follows-next :
    {model n : String} {chain : List String}
    → Follows model n chain
    → next_in_chain model chain ≡ some (some n)
unfolding next_in_chain
Follows-next (here {a = a}) = ground (arith, eq_self a)
Follows-next (there {chain = []} away h) = elim h [ ]
Follows-next {model = model} {n = n} (there {m = m} {chain = k ∷ chain} away h) =
    let rest = Follows-next h in ground (arith, rest, away, eq_iff m model)

-- A vendor's chain has the model with a successor.
abbrev pub HasNext : String → String → String → Type 0
HasNext provider model n =
    (chain : List String) × (model_family provider ≡ some chain) × Follows model n chain

abbrev IsFailbackTo : String → FailbackDecision → Type 0
IsFailbackTo n d = (d.action ≡ failback_model) × (d.next_model ≡ some n)

from_chain-next :
    (input : FailbackInput) (o : Option (Option String)) (n : String)
    → IsFailbackTo n (from_chain input o) ↔ (o ≡ some (some n))
from_chain-next input none n = (λ h. cc, λ h. cc)
from_chain-next input (some none) n = (λ h. cc, λ h. cc)
from_chain-next input (some (some m)) n = (λ h. ap some h.1, λ h. (refl, cc))

exhausted-next :
    (input : FailbackInput) (family : Option (List String)) (n : String)
    → IsFailbackTo n (exhausted input family)
      ↔ ((chain : List String) × (family ≡ some chain) × Follows input.model n chain)
exhausted-next input none n = (λ h. cc, λ h. cc)
exhausted-next input (some chain) n =
    let step = from_chain-next input (next_in_chain input.model chain) n in
    (
      λ h. (chain, refl, next-Follows input.model chain (step.0 h)),
      λ h.
          step.1 (
            subst (λ c. next_in_chain input.model c ≡ some (some n)) (cc (h.1)) (Follows-next h.2)),
    )

not_early : (a b : ℕ) → ltb a b ≡ false → b ≤ a
not_early a b h = ground arith

attempts-next :
    (input : FailbackInput) (n : String) (early : Bool)
    → ltb input.attempt input.max_attempts ≡ early
    → IsFailbackTo n (retry_or_failback input) ↔ (
        (retryable ≡ retryable)
        × (input.max_attempts ≤ input.attempt)
        × HasNext input.provider input.model n)
attempts-next input n true e =
    (λ h. ground (arith, e), λ h. ground (arith, ltb→lt input.attempt input.max_attempts e))
attempts-next input n false e =
    let step = exhausted-next input (model_family input.provider) n in
    rw e (λ h. (refl, not_early input.attempt input.max_attempts e, step.0 h), λ h. step.1 h.2)

-- A model is failed back to exactly when the failure was retryable, the attempts are used up, and the
-- model comes next to the failed one in the chain of the same provider.
failback_decision_iff :
    (input : FailbackInput) (n : String)
    → IsFailbackTo n (failback_decision input) ↔ (
        (input.failure_class ≡ retryable)
        × (input.max_attempts ≤ input.attempt)
        × HasNext input.provider input.model n)
unfolding failback_decision
failback_decision_iff input n = by_class input.failure_class
  where
    by_class :
        (c : FailureClass)
        → IsFailbackTo n (by_policy input (allowed_transition c)) ↔ (
            (c ≡ retryable)
            × (input.max_attempts ≤ input.attempt)
            × HasNext input.provider input.model n)
    by_class rate_limit = (λ h. cc, λ h. cc)
    by_class auth = (λ h. cc, λ h. cc)
    by_class context_overflow = (λ h. cc, λ h. cc)
    by_class unknown = (λ h. cc, λ h. cc)
    by_class retryable = attempts-next input n (ltb input.attempt input.max_attempts) refl

contains-snoc :
    (seen : List String) (x p : String) → contains (seen ++ x ∷ []) p ≡ (contains seen p || x == p)
contains-snoc [] x p = ground arith
contains-snoc (y ∷ seen) x p = ground (arith, contains-snoc seen x p)

contains-same :
    (seen : List String) (x p : String)
    → contains seen x ≡ true
    → (x == p) ≡ true
    → contains seen p ≡ true
contains-same seen x p h e = subst (λ y. contains seen y ≡ true) ((eq_iff x p).0 e) h

failed-contains :
    (seen : List String) (runs : List PriorCoderRun) (p : String)
    → contains (failed_providers seen runs) p
      ≡ (contains seen p || any (λ r. r.state == "failed" && r.provider == p) runs)
unfolding failed_providers
failed-contains seen [] p = ground arith
failed-contains seen (r ∷ runs) p = elim (Bool-cases (r.state == "failed")) [
  | inr fine ↦ ground (arith, fine, failed-contains seen runs p)
  | inl lost ↦ elim (Bool-cases (contains seen r.provider)) [
    | inl known ↦
        ground
          (arith, lost, known, contains-same seen r.provider p known, failed-contains seen runs p)
    | inr new ↦ ground (
      arith,
      lost,
      new,
      contains-snoc seen r.provider p,
      failed-contains (seen ++ r.provider ∷ []) runs p,
    )
  ]
]

-- A provider is avoided exactly when one of the prior runs failed on it.
avoid_providers-contains :
    (runs : List PriorCoderRun) (p : String)
    → contains (avoid_providers runs) p ≡ any (λ r. r.state == "failed" && r.provider == p) runs
unfolding avoid_providers
avoid_providers-contains runs p = failed-contains [] runs p
