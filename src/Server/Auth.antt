-- ===== src/Server/Auth.antt =====
-- packages/server/src/auth: connection-rate-limiter.ts and token.guard.ts. A time is a number of
-- milliseconds, and `now - start >= width` is written `start + width <= now`.
pub mod RateLimit
use Prim.Native.Char.{Char, code}
use nebula_clone.Prelude.{
  ℕ, suc, ◌+◌, Bool, true, false, not, ◌&&◌, ◌||◌, List, [], ◌∷◌, Option, none, some, String,
  length, leb, ltb, ◌==◌, ◌===◌, if◌then◌else◌, is_truthy, is_text,
}
use nebula_clone.Js.Table.{get, set, Key, String_key}

abbrev pub window_ms : ℕ
window_ms = 60_000

abbrev pub max_failures_per_window : ℕ
max_failures_per_window = 10

abbrev pub cleanup_threshold : ℕ
cleanup_threshold = 1_000

pub record FailureWindow : Type 0 where
  pub count : ℕ
  pub window_start_ms : ℕ

abbrev pub Failures : Type 0
Failures = List (String × FailureWindow)

abbrev pub to_key : Option String → String
to_key none = "unknown"
to_key (some ip) = ip

-- `nowMs - entry.windowStartMs >= WINDOW_MS`.
abbrev pub is_over : ℕ → FailureWindow → Bool
is_over now entry = leb (entry.window_start_ms + window_ms) now

abbrev blocks : ℕ → Option FailureWindow → Bool
blocks now none = false
blocks now (some entry) =
    if is_over now entry then false else leb max_failures_per_window entry.count

unfoldable pub is_blocked : Option String → ℕ → Failures → Bool
is_blocked ip now failures = blocks now (get (to_key ip) failures)

drop_over : ℕ → Failures → Failures
drop_over now [] = []
drop_over now ((key, entry) ∷ rest) =
    let kept = drop_over now rest in if is_over now entry then kept else (key, entry) ∷ kept

cleanup_if_needed : ℕ → Failures → Failures
cleanup_if_needed now failures =
    if ltb (length failures) cleanup_threshold then failures else drop_over now failures

abbrev counted : ℕ → Option FailureWindow → FailureWindow
counted now none = record { count = 1; window_start_ms = now }
counted now (some entry) =
    if is_over now entry
    then record { count = 1; window_start_ms = now }
    else record entry { count = entry.count + 1 }

pub record_failure : Option String → ℕ → Failures → Failures
record_failure ip now failures =
    let cleaned = cleanup_if_needed now failures in
    let key = to_key ip in set key (counted now (get key cleaned)) cleaned

push_char : Char → List String → List String
push_char c [] = String.◌∷◌ c "" ∷ []
push_char c (part ∷ parts) = String.◌∷◌ c part ∷ parts

-- `authorization.split(' ')`.
split_space : String → List String
unfolding push_char
split_space String.[] = "" ∷ []
split_space (String.◌∷◌ c s) =
    let rest = split_space s in if code c == b' ' then "" ∷ rest else push_char c rest

abbrev bearer : List String → Option String
bearer (scheme ∷ token ∷ _) =
    if not (scheme === "Bearer") || not (is_truthy (some token)) then none else some token
bearer _ = none

unfoldable pub extract_bearer_token : Option String → Option String
unfolding split_space
extract_bearer_token none = none
extract_bearer_token (some authorization) =
    if is_truthy (some authorization) then bearer (split_space authorization) else none

-- `isTokenEqual` compares UTF-8 bytes, which are equal exactly if the texts are.
-- `token && expected && isTokenEqual(expected, token)`.
abbrev pub accepts : Option String → Option String → Bool
accepts token none = false
accepts token (some expected) =
    is_truthy token && is_truthy (some expected) && is_text token expected

-- `TokenGuard.canActivate`: `false` stands for the 401 that is thrown.
unfoldable pub can_activate : Bool → Option String → Option String → Bool
unfolding extract_bearer_token
can_activate is_public authorization expected =
    if is_public then true else accepts (extract_bearer_token authorization) expected
