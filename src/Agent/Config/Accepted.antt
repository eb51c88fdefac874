-- ===== src/Agent/Config/Accepted.antt =====
-- What every configuration that is loaded satisfies.
use nebula_clone.Prelude.{
  ℕ, ◌≤◌, true, false, ◌||◌, List, [], ◌∷◌, Option, none, some, String, ltb, is_text, ◌≡◌, refl,
  subst, arith, inl, inr, Bool-cases,
}
use nebula_clone.Prelude.Results.{ok, >>=-eq-ok, ok_inj}
use nebula_clone.Js.Number.{Number, pos, negsuc, int, fraction, not_finite}
use nebula_clone.Js.Env.{Env, Texts, text_length, starts_with, is_empty, given}
use nebula_clone.Agent.Config.{
  Machine, SupervisorEnvConfig, parse_server_url, parse_agent_token, parse_positive_int,
  positive_of, parse_supervisor_config, parse_base_port, check_project, resolve_artifact,
  min_interval_ms, max_base_port, min_token_length,
}
use nebula_clone.Agent.Config.Android.{
  IntField, AndroidEnvConfig, parse_int_fields, android_with, android_for,
  android_supervisor_fields, android_runner_fields, android_mirror_fields,
}

positive_of-eq-ok :
    (x : Number) (name : String) (minimum n : ℕ) → positive_of x name minimum ≡ ok n → minimum ≤ n
unfolding positive_of
positive_of-eq-ok (int (pos k)) name minimum n e = ground (arith, e)
positive_of-eq-ok (int (negsuc k)) name minimum n e = cc
positive_of-eq-ok (fraction z) name minimum n e = cc
positive_of-eq-ok not_finite name minimum n e = cc

-- A number that is read is not below its minimum, if the default is not.
pub int-eq-ok :
    (texts : Texts) (name : String) (raw : Option String) (fallback minimum n : ℕ)
    → parse_positive_int texts name raw fallback minimum ≡ ok n
    → minimum ≤ fallback
    → minimum ≤ n
unfolding parse_positive_int
int-eq-ok texts name none fallback minimum n e h = ground (arith, e, h)
int-eq-ok texts name (some raw) fallback minimum n e h =
    positive_of-eq-ok (texts.to_number raw) name minimum n e

pub base_port-eq-ok :
    (m : Machine) (env : Env) (name : String) (fallback n : ℕ)
    → parse_base_port m env name fallback ≡ ok n
    → 1 ≤ fallback
    → (1 ≤ n) × (n ≤ max_base_port)
unfolding parse_base_port
base_port-eq-ok m env name fallback n e h =
    let (k, read, rest) = >>=-eq-ok (parse_positive_int m.texts name (env name) fallback 1) _ e in
    let low = int-eq-ok m.texts name (env name) fallback 1 k read h in ground (arith, rest, low)

-- The numbers stand under the names of their fields, none below its minimum.
abbrev pub Meets : List IntField → List (String × ℕ) → Type 0
Meets [] [] = Unit
Meets (field ∷ fields) ((key, n) ∷ out) = (key ≡ field.key) × (field.minimum ≤ n) × Meets fields out
Meets _ _ = ⊥

abbrev pub AreSensible : List IntField → Type 0
AreSensible [] = Unit
AreSensible (field ∷ fields) = (field.minimum ≤ field.fallback) × AreSensible fields

int_fields-eq-ok :
    (m : Machine) (env : Env) (fields : List IntField) (out : List (String × ℕ))
    → parse_int_fields m env fields ≡ ok out
    → AreSensible fields
    → Meets fields out
unfolding parse_int_fields
int_fields-eq-ok m env [] out e h = subst (Meets []) (ok_inj e) tt
int_fields-eq-ok m env (field ∷ fields) out e h =
    let (n, read, rest) =
      >>=-eq-ok
        (parse_positive_int m.texts field.variable (env field.variable) field.fallback
          field.minimum)
        _ e in
    let (tail, read', rest') = >>=-eq-ok (parse_int_fields m env fields) _ rest in
    let least =
      int-eq-ok m.texts field.variable (env field.variable) field.fallback field.minimum n read
        h.0 in
    subst (Meets (field ∷ fields)) (ok_inj rest')
      (refl, least, int_fields-eq-ok m env fields tail read' h.1)

-- A predicate on a value that may be missing.
abbrev pub IfAny : {A : Type 0} → (A → Type 0) → Option A → Type 0
IfAny P none = Unit
IfAny P (some a) = P a

abbrev pub IsBasePort : ℕ → Type 0
IsBasePort n = (1 ≤ n) × (n ≤ max_base_port)

abbrev pub IsAndroid : AndroidEnvConfig → Type 0
IsAndroid c =
    IsBasePort c.base_port
    × IsBasePort c.mirror_base_port
    × Meets android_supervisor_fields c.supervisor_tuning
    × Meets android_runner_fields c.runner_tuning
    × Meets android_mirror_fields c.mirror_tuning

android_with-IsAndroid :
    (m : Machine) (env : Env) (adb : String) (c : AndroidEnvConfig)
    → android_with m env adb ≡ ok c
    → IsAndroid c
unfolding android_with
android_with-IsAndroid m env adb c e =
    let (p, read, e1) = >>=-eq-ok (parse_base_port m env "NEBULA_ANDROID_BASE_PORT" 8_300) _ e in
    let (q, read', e2) =
      >>=-eq-ok (parse_base_port m env "NEBULA_ANDROID_MIRROR_BASE_PORT" 8_400) _ e1 in
    let (apk, _, e3) = >>=-eq-ok (resolve_artifact m _ (env "NEBULA_ANDROID_RUNNER_APK") _) _ e2 in
    let (dex, _, e4) = >>=-eq-ok (resolve_artifact m _ (env "NEBULA_ANDROID_MIRROR_DEX") _) _ e3 in
    let (s, fs, e5) = >>=-eq-ok (parse_int_fields m env android_supervisor_fields) _ e4 in
    let (r, fr, e6) = >>=-eq-ok (parse_int_fields m env android_runner_fields) _ e5 in
    let (t, ft, e7) = >>=-eq-ok (parse_int_fields m env android_mirror_fields) _ e6 in
    subst IsAndroid (ok_inj e7) (
      base_port-eq-ok m env "NEBULA_ANDROID_BASE_PORT" 8_300 p read (omega arith),
      base_port-eq-ok m env "NEBULA_ANDROID_MIRROR_BASE_PORT" 8_400 q read' (omega arith),
      int_fields-eq-ok m env android_supervisor_fields s fs (omega arith),
      int_fields-eq-ok m env android_runner_fields r fr (omega arith),
      int_fields-eq-ok m env android_mirror_fields t ft (omega arith),
    )

pub android_for-IsAndroid :
    (m : Machine) (env : Env) (adb : Option String) (c : Option AndroidEnvConfig)
    → android_for m env adb ≡ ok c
    → IfAny IsAndroid c
unfolding android_for
android_for-IsAndroid m env none c e = subst (IfAny IsAndroid) (ok_inj e) tt
android_for-IsAndroid m env (some adb) c e = elim (Bool-cases (is_empty adb)) [
  | inl empty ↦ subst (IfAny IsAndroid) (ok_inj (rw empty at e)) tt
  | inr full ↦
      let (a, read, e') = >>=-eq-ok (android_with m env adb) _ (rw full at e) in
      subst (IfAny IsAndroid) (ok_inj e') (android_with-IsAndroid m env adb a read)
]

abbrev pub IsSupervisor : SupervisorEnvConfig → Type 0
IsSupervisor s = IsBasePort s.base_port × (min_interval_ms ≤ s.health_interval_ms)

pub parse_supervisor_config_lem :
    (m : Machine) (env : Env) (c : Option SupervisorEnvConfig)
    → parse_supervisor_config m env ≡ ok c
    → IfAny IsSupervisor c
unfolding parse_supervisor_config
parse_supervisor_config_lem m env c e =
    elim (Bool-cases (is_text (env "NEBULA_XCODEBUILD_ENABLED") "true")) [
      | inr off ↦ subst (IfAny IsSupervisor) (ok_inj (rw off at e)) tt
      | inl on ↦
          let (path, _, e1) =
            >>=-eq-ok (check_project m (given (env "NEBULA_CONTROLLER_PROJECT"))) _ (rw on at e) in
          let (p, read, e2) =
            >>=-eq-ok (parse_base_port m env "NEBULA_CONTROLLER_BASE_PORT" 8_200) _ e1 in
          let (i, read', e3) =
            >>=-eq-ok
              (parse_positive_int m.texts "NEBULA_CONTROLLER_HEALTH_INTERVAL_MS"
                (env "NEBULA_CONTROLLER_HEALTH_INTERVAL_MS") 10_000 min_interval_ms)
              _ e2 in
          subst (IfAny IsSupervisor) (ok_inj e3) (
            base_port-eq-ok m env "NEBULA_CONTROLLER_BASE_PORT" 8_200 p read (omega arith),
            int-eq-ok m.texts "NEBULA_CONTROLLER_HEALTH_INTERVAL_MS"
                (env "NEBULA_CONTROLLER_HEALTH_INTERVAL_MS") 10_000 min_interval_ms i read'
                (omega arith),
          )
    ]

-- A token that is set has the length that the server asks for, and is no placeholder.
abbrev pub IsToken : String → Type 0
IsToken token = (min_token_length ≤ text_length token) × (starts_with token "change-me" ≡ false)

pub server_url-eq-ok :
    (raw : Option String) (url : String)
    → parse_server_url raw ≡ ok url
    → (starts_with url "ws://" || starts_with url "wss://") ≡ true
unfolding parse_server_url
server_url-eq-ok none url e = cc
server_url-eq-ok (some u) url e =
    elim (Bool-cases (starts_with u "ws://" || starts_with u "wss://")) [
      | inl there ↦
          subst (λ x. (starts_with x "ws://" || starts_with x "wss://") ≡ true)
            (ok_inj (rw there at e)) there
      | inr missing ↦ absurd (ground (arith, e, missing))
    ]

pub parse_agent_token_lem :
    (raw : Option String) (token : String) → parse_agent_token raw ≡ ok token → IsToken token
unfolding parse_agent_token
parse_agent_token_lem none token e = cc
parse_agent_token_lem (some t) token e = elim (Bool-cases (ltb (text_length t) min_token_length)) [
  | inl short ↦ absurd (ground (arith, e, short))
  | inr long ↦ elim (Bool-cases (starts_with t "change-me")) [
    | inl placeholder ↦ absurd (ground (arith, e, long, placeholder))
    | inr own ↦ subst IsToken (ok_inj (rw own at (rw long at e))) (ground (arith, long), own)
  ]
]
