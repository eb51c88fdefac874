-- ===== src/Server/Auth/RateLimit.antt =====
-- connection-rate-limiter.ts: whom the limiter blocks, and for how long.
use nebula_clone.Prelude.{
  ℕ, suc, false, ◌===◌, str_discrete, ◌+◌, ◌≤◌, ◌<◌, ◌&&◌, List, [], ◌∷◌, Option, none, some,
  String, leb, ltb, if◌then◌else◌, ◌≡◌, refl, ◌≢◌, ◌∙◌, ap, arith, All, Option-cases, inl, inr,
}
use nebula_clone.Js.Table.{get, String_key, get-set, IsMap, set-IsMap}
use nebula_clone.Server.Auth.{
  FailureWindow, Failures, to_key, is_over, blocks, is_blocked, drop_over, cleanup_if_needed,
  counted, record_failure, window_ms, max_failures_per_window,
}

-- The entry of a key if its window is still open.
abbrev live : ℕ → Option FailureWindow → Option FailureWindow
live now none = none
live now (some e) = if is_over now e then none else some e

drop_over_missing :
    (now : ℕ) (key : String) (fs : Failures) → get key fs ≡ none → get key (drop_over now fs) ≡ none
unfolding get drop_over
drop_over_missing now key [] e = refl
drop_over_missing now key ((k, w) ∷ fs) e = ground (arith, drop_over_missing now key fs)

get-drop_over :
    (now : ℕ) (key : String) (fs : Failures)
    → IsMap fs
    → get key (drop_over now fs) ≡ live now (get key fs)
unfolding get drop_over
get-drop_over now key [] u = refl
get-drop_over now key ((k, w) ∷ fs) u =
    ground (arith, get-drop_over now key fs u.1, drop_over_missing now key fs)

live-cleanup :
    (now : ℕ) (key : String) (fs : Failures)
    → IsMap fs
    → live now (get key (cleanup_if_needed now fs)) ≡ live now (get key fs)
unfolding cleanup_if_needed
live-cleanup now key fs u = elim (Option-cases (get key fs)) [
  | inl e ↦ ground (arith, get-drop_over now key fs u)
  | inr (w, e) ↦ ground (arith, get-drop_over now key fs u)
]

drop_over-IsMap : (now : ℕ) (fs : Failures) → IsMap fs → IsMap (drop_over now fs)
unfolding drop_over
drop_over-IsMap now [] u = tt
drop_over-IsMap now ((k, w) ∷ fs) u =
    ground (arith, drop_over-IsMap now fs u.1, drop_over_missing now k fs)

-- The limiter's map keeps one entry for each key.
record_failure-IsMap :
    (ip : Option String) (now : ℕ) (fs : Failures) → IsMap fs → IsMap (record_failure ip now fs)
unfolding record_failure cleanup_if_needed
record_failure-IsMap ip now fs u =
    set-IsMap (to_key ip) _ _ (ground (arith, drop_over-IsMap now fs u))

counted-live :
    (now : ℕ) (a b : Option FailureWindow) → live now a ≡ live now b → counted now a ≡ counted now b
counted-live now none none e = refl
counted-live now none (some b) e = ground arith
counted-live now (some a) none e = ground arith
counted-live now (some a) (some b) e = ground arith

-- The entry of the address that failed: the cleanup does not show.
get-record_failure_self :
    (ip : Option String) (now : ℕ) (fs : Failures)
    → IsMap fs
    → get (to_key ip) (record_failure ip now fs) ≡ some (counted now (get (to_key ip) fs))
unfolding record_failure
get-record_failure_self ip now fs u =
    get-set (to_key ip) (to_key ip) _ _
    ∙ ground (
      arith,
      counted-live now (get (to_key ip) (cleanup_if_needed now fs)) (get (to_key ip) fs)
          (live-cleanup now (to_key ip) fs u),
    )

blocks-live :
    (now t : ℕ) (a b : Option FailureWindow)
    → now ≤ t
    → live now a ≡ live now b
    → blocks t a ≡ blocks t b
blocks-live now t none none h e = refl
blocks-live now t none (some b) h e = ground arith
blocks-live now t (some a) none h e = ground arith
blocks-live now t (some a) (some b) h e = ground arith

-- A failure of one address never blocks nor frees another, even if it triggers the cleanup.
pub is_blocked-record_failure_other :
    (ip other : Option String) (now t : ℕ) (fs : Failures)
    → IsMap fs
    → to_key ip ≢ to_key other
    → now ≤ t
    → is_blocked other t (record_failure ip now fs) ≡ is_blocked other t fs
unfolding record_failure is_blocked
is_blocked-record_failure_other ip other now t fs u ne h = blocks-live now t _ _ h (
    ap (live now) (get-set (to_key ip) (to_key other) _ _)
    ∙ ground (arith, live-cleanup now (to_key other) fs u))

abbrev pub record_all : List (Option String × ℕ) → Failures → Failures
record_all [] fs = fs
record_all ((ip, t) ∷ rest) fs = record_all rest (record_failure ip t fs)

-- How many of the failures are of an address.
abbrev pub failures_of : Option String → List (Option String × ℕ) → ℕ
failures_of ip [] = 0
failures_of ip ((by, t) ∷ rest) =
    let later = failures_of ip rest in if to_key by === to_key ip then suc later else later

-- A failure of another address leaves an entry whose window is open.
get-record_failure_other :
    (ip by : Option String) (now : ℕ) (e : FailureWindow) (fs : Failures)
    → IsMap fs
    → to_key by ≢ to_key ip
    → is_over now e ≡ false
    → get (to_key ip) fs ≡ some e
    → get (to_key ip) (record_failure by now fs) ≡ some e
unfolding record_failure cleanup_if_needed
get-record_failure_other ip by now e fs u ne alive there =
    get-set (to_key by) (to_key ip) _ _
    ∙ ground (arith, ne, alive, there, get-drop_over now (to_key ip) fs u)

module _ (ip : Option String) (start : ℕ) where
  abbrev pub IsWithin : Option String × ℕ → Type 0
  IsWithin f = f.1 < start + window_ms

  abbrev window : ℕ → FailureWindow
  window n = record { count = n; window_start_ms = start }

  get-record_all :
      (n : ℕ) (rest : List (Option String × ℕ)) (fs : Failures)
      → IsMap fs
      → get (to_key ip) fs ≡ some (window n)
      → All IsWithin rest
      → get (to_key ip) (record_all rest fs) ≡ some (window (n + failures_of ip rest))
  get-record_all n [] fs u e a = ground arith
  get-record_all n ((by, t) ∷ rest) fs u e a = elim (str_discrete (to_key by) (to_key ip)) [
    | yes same ↦
        get-record_all (n + 1) rest (record_failure by t fs) (record_failure-IsMap by t fs u)
          (ground (
            arith,
            get-record_failure_self by t fs u,
            same,
            ap (λ k. get k fs) same,
            ap (λ k. get k (record_failure by t fs)) same,
            e,
          ))
          a.1
        ∙ ground (arith, same)
    | no differ ↦
        get-record_all n rest (record_failure by t fs) (record_failure-IsMap by t fs u)
          (get-record_failure_other ip by t (window n) fs u differ (ground (arith, a.0)) e) a.1
        ∙ ground (arith, differ)
  ]

  -- An address of which the limiter knows nothing fails, and then any addresses fail any number of times
  -- before the end of the window that this failure opened. Then the address is blocked exactly if ten
  -- failures or more were its own, the first one included, and until that window ends.
  pub is_blocked-record_all :
      (rest : List (Option String × ℕ)) (t : ℕ) (fs : Failures)
      → IsMap fs
      → get (to_key ip) fs ≡ none
      → All IsWithin rest
      → is_blocked ip t (record_all ((ip, start) ∷ rest) fs)
        ≡ (leb max_failures_per_window (1 + failures_of ip rest) && ltb t (start + window_ms))
  unfolding is_blocked
  is_blocked-record_all rest t fs u e a = ground (
    arith,
    get-record_all 1 rest (record_failure ip start fs) (record_failure-IsMap ip start fs u)
        (ground (arith, get-record_failure_self ip start fs u)) a,
  )
