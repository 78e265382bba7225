-- ===== src/Providers/Classify.antt =====
-- What the text of an exit reason tells: the class of the failure (src/providers/failback.ts) and the
-- signal to the capacity gate (src/providers/capacity.ts).
pub mod Agree
use nightshift0s.Prelude.{ℕ, String, Bool, Option, none, some, List, [], ◌∷◌, any, if◌then◌else◌}
use nightshift0s.Prelude.Text.{codes, includes, lower_text}
use nightshift0s.Providers.Failback.{
  FailureClass, retryable, rate_limit, auth, context_overflow, unknown,
}
use nightshift0s.Providers.Capacity.{SignalKind, too_many_requests, auth_limit, error}

-- `r.includes(a) || r.includes(b) || …`, of a text in lower case.
abbrev pub mentions : List (List ℕ) → List ℕ → Bool
mentions patterns r = any (λ pattern. includes pattern r) patterns

abbrev pub context_patterns : List (List ℕ)
context_patterns =
    codes "context length"
    ∷ codes "context_length"
    ∷ codes "token window"
    ∷ codes "token_window"
    ∷ codes "context overflow"
    ∷ codes "context_overflow"
    ∷ codes "maximum context"
    ∷ codes "prompt is too long"
    ∷ codes "too many tokens"
    ∷ []

abbrev pub rate_patterns : List (List ℕ)
rate_patterns =
    codes "429" ∷ codes "rate_limit" ∷ codes "rate limit" ∷ codes "too many requests" ∷ []

abbrev pub auth_patterns : List (List ℕ)
auth_patterns =
    codes "401"
    ∷ codes "403"
    ∷ codes "auth_limit"
    ∷ codes "auth limit"
    ∷ codes "authentication_error"
    ∷ codes "unauthorized"
    ∷ codes "invalid_api_key"
    ∷ codes "invalid api key"
    ∷ codes "quota"
    ∷ codes "usage limit"
    ∷ codes "usage_limit"
    ∷ []

abbrev pub transient_patterns : List (List ℕ)
transient_patterns =
    codes "transient"
    ∷ codes "network"
    ∷ codes "connection"
    ∷ codes "timeout"
    ∷ codes "timed out"
    ∷ codes "econnreset"
    ∷ codes "econnrefused"
    ∷ codes "enotfound"
    ∷ codes "socket"
    ∷ codes "500"
    ∷ codes "502"
    ∷ codes "503"
    ∷ codes "504"
    ∷ codes "server error"
    ∷ codes "internal error"
    ∷ codes "overloaded"
    ∷ []

-- The first that is mentioned decides.
abbrev pub class_by : (context rate credential transient : Bool) → FailureClass
class_by context rate credential transient =
    if context
    then context_overflow
    else if rate
    then rate_limit
    else if credential
    then auth
    else if transient
    then retryable
    else unknown

abbrev pub class_of : List ℕ → FailureClass
class_of r =
    class_by (mentions context_patterns r) (mentions rate_patterns r) (mentions auth_patterns r)
      (mentions transient_patterns r)

unfoldable pub classify_failure : Option String → FailureClass
classify_failure none = unknown
classify_failure (some reason) = class_of (lower_text (codes reason))

abbrev pub signal_rate_patterns : List (List ℕ)
signal_rate_patterns = codes "429" ∷ codes "rate_limit" ∷ codes "rate limit" ∷ []

abbrev pub signal_auth_patterns : List (List ℕ)
signal_auth_patterns =
    codes "auth_limit"
    ∷ codes "auth limit"
    ∷ codes "quota"
    ∷ codes "usage limit"
    ∷ codes "usage_limit"
    ∷ codes "401"
    ∷ codes "403"
    ∷ codes "authentication_error"
    ∷ codes "invalid_api_key"
    ∷ codes "unauthorized"
    ∷ []

abbrev pub signal_by : (rate credential : Bool) → SignalKind
signal_by rate credential =
    if rate then too_many_requests else if credential then auth_limit else error

abbrev pub signal_of : List ℕ → SignalKind
signal_of r = signal_by (mentions signal_rate_patterns r) (mentions signal_auth_patterns r)

unfoldable pub signal_from_exit_reason : Option String → SignalKind
signal_from_exit_reason none = error
signal_from_exit_reason (some reason) = signal_of (lower_text (codes reason))
