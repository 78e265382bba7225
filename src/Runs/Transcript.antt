-- ===== src/Runs/Transcript.antt =====
-- The class of a silent run by the tail of its transcript (src/runs/watchdog.ts), a list of character
-- codes.
use nightshift0s.Prelude.{ℕ, not, List, [], ◌∷◌, any, keep, is_empty, leb, if◌then◌else◌}
use nightshift0s.Prelude.Text.{codes, trim, is_space, includes, lower_text, utf16_length}

pub data Classification : Type 0 where
  api_error normal unknown : Classification

abbrev pub api_error_patterns : List (List ℕ)
api_error_patterns =
    codes "overloaded_error"
    ∷ codes "rate_limit"
    ∷ codes "api error"
    ∷ codes "500 internal server"
    ∷ codes "503 service unavailable"
    ∷ codes "connection reset"
    ∷ codes "econnrefused"
    ∷ codes "authentication_error"
    ∷ codes "invalid_api_key"
    ∷ []

abbrev pub classify_trimmed : List ℕ → Classification
classify_trimmed trimmed =
    if is_empty trimmed
    then unknown
    else if any (λ pattern. includes pattern (lower_text trimmed)) api_error_patterns
    then api_error
    else if leb 20 (utf16_length (keep (λ c. not (is_space c)) trimmed))
    then normal
    else unknown

unfoldable pub classify_silent_transcript : List ℕ → Classification
classify_silent_transcript tail = classify_trimmed (trim tail)
