-- ===== src/Providers/Failback.antt =====
-- The failback policy after a failed attempt (src/providers/failback.ts), from the class of the
-- failure on.
pub mod Chain
use nightshift0s.Prelude.{
  is_empty, ℕ, String, Bool, true, false, Option, none, some, List, [], ◌∷◌, ◌++◌, ◌==◌, string_Eq,
  find, contains, keep, ltb, if◌then◌else◌,
}
use nightshift0s.Prelude.Text.{◌⧺◌, decimal, joined}
use nightshift0s.Db.Columns.Runs.{RunState, failed, run_state_Eq}

pub data FailureClass : Type 0 where
  retryable rate_limit auth context_overflow unknown : FailureClass

abbrev class_text : FailureClass → String
class_text retryable = "retryable"
class_text rate_limit = "rate_limit"
class_text auth = "auth"
class_text context_overflow = "context_overflow"
class_text unknown = "unknown"

-- `MODEL_FAMILIES[provider]`
abbrev pub model_family : String → Option (List String)
model_family provider =
    if provider == "claude-code"
    then some ("claude-opus-4-8" ∷ "claude-opus-4-7" ∷ "claude-sonnet-4-6" ∷ [])
    else if provider == "codex"
    then some ("o3" ∷ "o4-mini" ∷ "gpt-4o" ∷ [])
    else if provider == "gemini"
    then some ("gemini-2-5-pro" ∷ "gemini-2-0-flash" ∷ "gemini-1-5-pro" ∷ [])
    else none

pub data Action : Type 0 where
  retry_same failback_model stop : Action

abbrev pub allowed_transition : FailureClass → Action
allowed_transition retryable = retry_same
allowed_transition _ = stop

pub record FailbackInput : Type 0 where
  pub provider : String
  pub model : String
  pub failure_class : FailureClass
  pub attempt : ℕ
  pub max_attempts : ℕ

pub record FailbackDecision : Type 0 where
  pub action : Action
  pub next_model : Option String
  pub reason : String

abbrev decide : Action → Option String → String → FailbackDecision
decide action next reason = record { action = action; next_model = next; reason = reason }

-- `chain[chain.indexOf(model) + 1]`: nothing where the model is not in the chain, and nothing inside
-- where it is the last one.
unfoldable pub next_in_chain : String → List String → Option (Option String)
next_in_chain model [] = none
next_in_chain model (m ∷ []) = if m == model then some none else none
next_in_chain model (m ∷ n ∷ chain) =
    let rest = next_in_chain model (n ∷ chain) in if m == model then some (some n) else rest

-- What is decided once the attempts are exhausted and the chain was looked at.
abbrev pub from_chain : FailbackInput → Option (Option String) → FailbackDecision
from_chain input none = decide stop none (
    "attempts exhausted; model=\"" ⧺ input.model ⧺ "\" not found in chain for provider=\""
    ⧺ input.provider ⧺ "\"")
from_chain input (some none) = decide stop none (
    "attempts exhausted; model=\"" ⧺ input.model ⧺ "\" is last in chain for provider=\""
    ⧺ input.provider ⧺ "\" — chain exhausted")
from_chain input (some (some n)) = decide failback_model (some n) (
    "attempts exhausted; failing back from \"" ⧺ input.model ⧺ "\" to \"" ⧺ n
    ⧺ "\" within provider=\"" ⧺ input.provider ⧺ "\"")

abbrev pub exhausted : FailbackInput → Option (List String) → FailbackDecision
exhausted input none = decide stop none (
    "attempts exhausted; provider=\"" ⧺ input.provider
    ⧺ "\" not in MODEL_FAMILIES — cannot failback")
exhausted input (some chain) = from_chain input (next_in_chain input.model chain)

abbrev pub retry_or_failback : FailbackInput → FailbackDecision
retry_or_failback input =
    if ltb input.attempt input.max_attempts
    then decide retry_same none (
        "failureClass="
        ⧺ class_text input.failure_class
        ⧺ " attempt="
        ⧺ decimal input.attempt
        ⧺ "/"
        ⧺ decimal input.max_attempts
        ⧺ " retrying same model")
    else exhausted input (model_family input.provider)

abbrev pub by_policy : FailbackInput → Action → FailbackDecision
by_policy input stop =
    decide stop none
      ("failureClass=" ⧺ class_text input.failure_class ⧺ " policy=stop (no failback per §3.4)")
by_policy input _ = retry_or_failback input

unfoldable pub failback_decision : FailbackInput → FailbackDecision
failback_decision input = by_policy input (allowed_transition input.failure_class)

pub record PriorCoderRun : Type 0 where
  pub provider : String
  pub model : String
  pub exit_reason : Option String
  pub state : String

-- The set of the providers of failed runs, in the order of insertion.
unfoldable pub failed_providers : List String → List PriorCoderRun → List String
failed_providers seen [] = seen
failed_providers seen (r ∷ runs) =
    let added = failed_providers (seen ++ r.provider ∷ []) runs in
    let passed = failed_providers seen runs in
    if r.state == "failed" then (if contains seen r.provider then passed else added) else passed

unfoldable pub avoid_providers : List PriorCoderRun → List String
avoid_providers runs = failed_providers [] runs

pub record RoutingDecision : Type 0 where
  pub avoid_providers : List String
  pub reason : String

abbrev routing_reason : List String → String
routing_reason [] = "no prior failed coder runs — no providers to avoid"
routing_reason (p ∷ providers) =
    "avoiding providers with prior failed runs: " ⧺ joined ", " p providers

unfoldable pub routing_decision : List PriorCoderRun → RoutingDecision
routing_decision runs = record {
  avoid_providers = avoid_providers runs;
  reason = routing_reason (avoid_providers runs);
}
