-- ===== src/Server/Config.antt =====
-- packages/server/src/config/env.validation.ts and the bounds of constants.ts: the validation of the
-- environment at the start. A problem is a value where the source builds a text, and all problems are
-- thrown together.
pub mod Validated
use nebula_clone.Prelude.{
  ℕ, ◌≤◌, Bool, true, false, not, ◌&&◌, List, [], ◌∷◌, ◌++◌, Option, none, some, String, ltb, leb,
  ◌===◌, if◌then◌else◌,
}
use nebula_clone.Prelude.Results.{Result, ok, err}
use nebula_clone.Js.Number.{ℤ, pos, negsuc, Number, int}
use nebula_clone.Js.Env.{Env, Texts, text_length, starts_with, is_empty}

abbrev pub min_occupation_ttl_ms : ℕ
min_occupation_ttl_ms = 60_000

abbrev pub min_sweep_interval_ms : ℕ
min_sweep_interval_ms = 1_000

abbrev pub min_heartbeat_timeout_ms : ℕ
min_heartbeat_timeout_ms = 10_000

abbrev pub min_token_length : ℕ
min_token_length = 24

pub data Problem : Type 0 where
  missing placeholder too_short not_an_integer too_low : String → Problem
  same_tokens : Problem

abbrev pub required_token_keys : List String
required_token_keys = "NEBULA_CLIENT_TOKEN" ∷ "NEBULA_AGENT_TOKEN" ∷ []

abbrev pub optional_int_keys : List (String × ℕ)
optional_int_keys =
    ("NEBULA_OCCUPATION_TTL_MS", min_occupation_ttl_ms)
    ∷ ("NEBULA_RATE_LIMIT_PER_MINUTE", 1)
    ∷ ("NEBULA_SWEEP_INTERVAL_MS", min_sweep_interval_ms)
    ∷ ("NEBULA_HEARTBEAT_TIMEOUT_MS", min_heartbeat_timeout_ms)
    ∷ []

-- `none` where the source returns null: the value is good.
unfoldable pub token_problem : Texts → String → Option String → Option Problem
token_problem texts key none = some (missing key)
token_problem texts key (some value) =
    if is_empty (texts.trim value)
    then some (missing key)
    else if starts_with value "change-me"
    then some (placeholder key)
    else if ltb (text_length value) min_token_length
    then some (too_short key)
    else none

int_problem : Number → String → ℕ → Option Problem
int_problem (int (pos n)) key minimum = if ltb n minimum then some (too_low key) else none
int_problem (int (negsuc n)) key minimum = some (too_low key)
int_problem _ key minimum = some (not_an_integer key)

unfoldable pub optional_int_problem : Texts → String → Option String → ℕ → Option Problem
unfolding int_problem
optional_int_problem texts key none minimum = none
optional_int_problem texts key (some value) minimum =
    int_problem (texts.to_number value) key minimum

abbrev to_list : Option Problem → List Problem
to_list none = []
to_list (some p) = p ∷ []

abbrev token_problems : Texts → Env → List String → List Problem
token_problems texts env [] = []
token_problems texts env (key ∷ rest) =
    to_list (token_problem texts key (env key)) ++ token_problems texts env rest

abbrev int_problems : Texts → Env → List (String × ℕ) → List Problem
int_problems texts env [] = []
int_problems texts env ((key, minimum) ∷ rest) =
    to_list (optional_int_problem texts key (env key) minimum) ++ int_problems texts env rest

-- `a === b`, of values that may be undefined.
abbrev pub equal : Option String → Option String → Bool
equal (some a) (some b) = a === b
equal none none = true
equal _ _ = false

answer : Env → List Problem → Result (List Problem) Env
answer env [] =
    if equal (env "NEBULA_CLIENT_TOKEN") (env "NEBULA_AGENT_TOKEN")
    then err (same_tokens ∷ [])
    else ok env
answer env (p ∷ ps) = err (p ∷ ps)

unfoldable pub validate_env : Texts → Env → Result (List Problem) Env
unfolding answer
validate_env texts env =
    answer env
      (token_problems texts env required_token_keys ++ int_problems texts env optional_int_keys)

-- `resolveMsEnv`: how a period is read after the validation.
abbrev pub resolve_ms_env : Texts → Option String → ℕ → Number
resolve_ms_env texts none fallback = int (pos fallback)
resolve_ms_env texts (some raw) fallback = texts.to_number raw
