-- ===== src/Server/Config/Validated.antt =====
-- What an environment that passes the validation satisfies.
use nebula_clone.Prelude.{
  ℕ, ◌≤◌, false, List, [], ◌∷◌, ◌++◌, Option, none, some, String, str_discrete, ◌≡◌, ◌≢◌, refl,
  arith, inl, inr, Bool-cases,
}
use nebula_clone.Prelude.Results.{Result, ok}
use nebula_clone.Js.Number.{pos, negsuc, Number, int, fraction, not_finite}
use nebula_clone.Js.Env.{Env, Texts, text_length, starts_with, is_empty, given}
use nebula_clone.Agent.Config as Agent
use nebula_clone.Agent.Config.{ConfigError}
use nebula_clone.Server.Config.{
  Problem, min_token_length, min_occupation_ttl_ms, min_sweep_interval_ms, min_heartbeat_timeout_ms,
  token_problem, int_problem, optional_int_problem, to_list, equal, answer, validate_env,
  token_problems, int_problems, required_token_keys, optional_int_keys, resolve_ms_env,
}

nothing_listed :
    (o : Option Problem) (rest : List Problem) → to_list o ++ rest ≡ [] → (o ≡ none) × (rest ≡ [])
nothing_listed none rest e = (refl, e)
nothing_listed (some p) rest e = cc

append-eq-nil : (xs ys : List Problem) → xs ++ ys ≡ [] → (xs ≡ []) × (ys ≡ [])
append-eq-nil [] ys e = (refl, e)
append-eq-nil (x ∷ xs) ys e = cc

answer-eq-ok :
    (env env' : Env) (problems : List Problem)
    → answer env problems ≡ ok env'
    → (problems ≡ []) × (equal (env "NEBULA_CLIENT_TOKEN") (env "NEBULA_AGENT_TOKEN") ≡ false)
unfolding answer
answer-eq-ok env env' [] e =
    elim (Bool-cases (equal (env "NEBULA_CLIENT_TOKEN") (env "NEBULA_AGENT_TOKEN"))) [
      | inl same ↦ absurd (ground (arith, e, same))
      | inr differ ↦ (refl, differ)
    ]
answer-eq-ok env env' (p ∷ ps) e = cc

-- A token that is long enough and no placeholder.
abbrev pub IsToken : String → Type 0
IsToken token = (min_token_length ≤ text_length token) × (starts_with token "change-me" ≡ false)

token_problem-eq-none :
    (texts : Texts) (key : String) (value : Option String)
    → token_problem texts key value ≡ none
    → (token : String) × (value ≡ some token) × IsToken token
unfolding token_problem
token_problem-eq-none texts key none e = cc
token_problem-eq-none texts key (some value) e = (
  value,
  refl,
  elim (Bool-cases (is_empty (texts.trim value))) [
    | inl empty ↦ absurd (ground (arith, e, empty))
    | inr full ↦ ground (arith, e, full)
  ],
)

int_problem-eq-none :
    (x : Number) (key : String) (minimum : ℕ)
    → int_problem x key minimum ≡ none
    → (n : ℕ) × (x ≡ int (pos n)) × (minimum ≤ n)
unfolding int_problem
int_problem-eq-none (int (pos n)) key minimum e = (n, refl, ground (arith, e))
int_problem-eq-none (int (negsuc n)) key minimum e = cc
int_problem-eq-none (fraction z) key minimum e = cc
int_problem-eq-none not_finite key minimum e = cc

-- A period that is read is an integer, and is not too low.
abbrev pub IsPeriod : Texts → Option String → ℕ → ℕ → Type 0
IsPeriod texts raw fallback minimum =
    (n : ℕ) × (resolve_ms_env texts raw fallback ≡ int (pos n)) × (minimum ≤ n)

optional_int_problem_lem :
    (texts : Texts) (key : String) (raw : Option String) (fallback minimum : ℕ)
    → optional_int_problem texts key raw minimum ≡ none
    → minimum ≤ fallback
    → IsPeriod texts raw fallback minimum
unfolding optional_int_problem
optional_int_problem_lem texts key none fallback minimum e h = (fallback, refl, h)
optional_int_problem_lem texts key (some value) fallback minimum e h =
    int_problem-eq-none (texts.to_number value) key minimum e

-- The agent does not refuse a token that the server accepts.
agent_reads :
    (token : String)
    → IsToken token
    → ◌≡◌ {A = Result ConfigError String} (Agent.parse_agent_token (given (some token))) (ok token)
unfolding Agent.parse_agent_token
agent_reads String.[] (long, own) = absurd (omega (arith, long))
agent_reads (String.◌∷◌ c s) (long, own) = ground (arith, long, own)

pub record IsValid (texts : Texts) (env : Env) : Type 0 where
  pub tokens :
      (client agent : String) × (env "NEBULA_CLIENT_TOKEN" ≡ some client)
      × (env "NEBULA_AGENT_TOKEN" ≡ some agent)
      × (client ≢ agent)
      × IsToken client
      × ◌≡◌ {A = Result ConfigError String}
          (Agent.parse_agent_token (given (env "NEBULA_AGENT_TOKEN")))
          (ok agent)
  pub occupation_ttl : IsPeriod texts (env "NEBULA_OCCUPATION_TTL_MS") 600_000 min_occupation_ttl_ms
  pub rate_limit : IsPeriod texts (env "NEBULA_RATE_LIMIT_PER_MINUTE") 120 1
  pub sweep : IsPeriod texts (env "NEBULA_SWEEP_INTERVAL_MS") 30_000 min_sweep_interval_ms
  pub heartbeat_timeout :
      IsPeriod texts (env "NEBULA_HEARTBEAT_TIMEOUT_MS") 90_000 min_heartbeat_timeout_ms

-- An environment that the server does not refuse has two different tokens of at least 24 units, the one
-- for the agents is read by the agent's own configuration, and each period is an integer that is not below
-- its minimum, also where the default stands in.
pub validate_env-IsValid :
    (texts : Texts) (env env' : Env) → validate_env texts env ≡ ok env' → IsValid texts env
unfolding validate_env
validate_env-IsValid texts env env' e =
    let problems = token_problems texts env required_token_keys in
    let others = int_problems texts env optional_int_keys in
    let (none_found, differ) = answer-eq-ok env env' (problems ++ others) e in
    let (no_token_problem, no_int_problem) = append-eq-nil problems others none_found in
    let (c, e1) =
      nothing_listed (token_problem texts "NEBULA_CLIENT_TOKEN" (env "NEBULA_CLIENT_TOKEN")) _
        no_token_problem in
    let (a, e2) =
      nothing_listed (token_problem texts "NEBULA_AGENT_TOKEN" (env "NEBULA_AGENT_TOKEN")) _ e1 in
    let (t, e3) =
      nothing_listed
        (optional_int_problem texts "NEBULA_OCCUPATION_TTL_MS" (env "NEBULA_OCCUPATION_TTL_MS")
          min_occupation_ttl_ms)
        _ no_int_problem in
    let (r, e4) =
      nothing_listed
        (optional_int_problem texts "NEBULA_RATE_LIMIT_PER_MINUTE"
          (env "NEBULA_RATE_LIMIT_PER_MINUTE") 1)
        _ e3 in
    let (s, e5) =
      nothing_listed
        (optional_int_problem texts "NEBULA_SWEEP_INTERVAL_MS" (env "NEBULA_SWEEP_INTERVAL_MS")
          min_sweep_interval_ms)
        _ e4 in
    let (h, e6) =
      nothing_listed
        (optional_int_problem texts "NEBULA_HEARTBEAT_TIMEOUT_MS"
          (env "NEBULA_HEARTBEAT_TIMEOUT_MS") min_heartbeat_timeout_ms)
        _ e5 in
    let (client, c_is, c_good) =
      token_problem-eq-none texts "NEBULA_CLIENT_TOKEN" (env "NEBULA_CLIENT_TOKEN") c in
    let (agent, a_is, a_good) =
      token_problem-eq-none texts "NEBULA_AGENT_TOKEN" (env "NEBULA_AGENT_TOKEN") a in
    record {
      tokens = (
        client,
        agent,
        c_is,
        a_is,
        (λ same. absurd (ground (arith, differ, c_is, a_is, same, str_discrete client agent))),
        c_good,
        rw (a_is) (agent_reads agent a_good),
      );
      occupation_ttl =
          optional_int_problem_lem texts "NEBULA_OCCUPATION_TTL_MS" (env "NEBULA_OCCUPATION_TTL_MS")
            600_000 min_occupation_ttl_ms t (omega arith);
      rate_limit =
          optional_int_problem_lem texts "NEBULA_RATE_LIMIT_PER_MINUTE"
            (env "NEBULA_RATE_LIMIT_PER_MINUTE") 120 1 r (omega arith);
      sweep =
          optional_int_problem_lem texts "NEBULA_SWEEP_INTERVAL_MS" (env "NEBULA_SWEEP_INTERVAL_MS")
            30_000 min_sweep_interval_ms s (omega arith);
      heartbeat_timeout =
          optional_int_problem_lem texts "NEBULA_HEARTBEAT_TIMEOUT_MS"
            (env "NEBULA_HEARTBEAT_TIMEOUT_MS") 90_000 min_heartbeat_timeout_ms h (omega arith);
    }
