-- ===== src/Agent/Config/AgentId.antt =====
-- `sanitizeAgentId` against the pattern that the agent and the server test an id by.
use Prim.Native.Char.{code}
use nebula_clone.Prelude.{
  ℕ, zero, suc, ◌≤◌, Bool, true, false, String, ltb, length, all, ◌≡◌, refl, ap, arith, inl, inr,
  Bool-cases,
}
use nebula_clone.Js.Env.{is_empty}
use nebula_clone.Js.Pattern.{codes, matches}
use nebula_clone.Agent.Config.{agent_id_class, dashed, slice, sanitize_agent_id, is_agent_id}

dashed_class : (s : String) → all agent_id_class (codes (dashed s)) ≡ true
dashed_class String.[] = refl
dashed_class (String.◌∷◌ c s) = elim (Bool-cases (agent_id_class (code c))) [
  | inl e ↦ rw (e) (ground (arith, e, dashed_class s))
  | inr e ↦ rw (e) (elim (Bool-cases (ltb (code c) 65_536)) [
    | inl f ↦ rw (f) (dashed_class s)
    | inr f ↦ rw (f) (dashed_class s)
  ])
]

slice_class :
    (p : ℕ → Bool) (n : ℕ) (s : String) → all p (codes s) ≡ true → all p (codes (slice n s)) ≡ true
slice_class p zero s e = refl
slice_class p (suc n) String.[] e = refl
slice_class p (suc n) (String.◌∷◌ c s) e = ground (arith, e, slice_class p n s)

length-slice : (n : ℕ) (s : String) → length (codes (slice n s)) ≤ n
length-slice zero s = omega arith
length-slice (suc n) String.[] = omega arith
length-slice (suc n) (String.◌∷◌ c s) = omega (arith, length-slice n s)

not_empty : (s : String) → is_empty s ≡ false → 1 ≤ length (codes s)
not_empty String.[] e = absurd (ground (arith, e))
not_empty (String.◌∷◌ c s) e = omega arith

-- What is sanitised is an agent id, whatever the host is called.
pub sanitize_lem : (raw : String) → is_agent_id (sanitize_agent_id raw) ≡ true
unfolding is_agent_id matches sanitize_agent_id
sanitize_lem raw =
    let sanitized = slice 64 (dashed raw) in
    elim (Bool-cases (is_empty sanitized)) [
      | inl e ↦ rw (e) refl
      | inr e ↦ rw (e) (
          ground (
            arith,
            not_empty sanitized e,
            length-slice 64 (dashed raw),
            slice_class agent_id_class 64 (dashed raw) (dashed_class raw),
          ))
    ]

filled : (s : String) → 1 ≤ length (codes s) → is_empty s ≡ false
filled String.[] h = absurd (omega (arith, h))
filled (String.◌∷◌ c s) h = refl

dashed_same : (s : String) → all agent_id_class (codes s) ≡ true → dashed s ≡ s
dashed_same String.[] e = refl
dashed_same (String.◌∷◌ c s) e =
    let here : agent_id_class (code c) ≡ true = ground (arith, e) in
    rw (here) (ap (String.◌∷◌ c) (dashed_same s (ground (arith, e))))

slice_same : (n : ℕ) (s : String) → length (codes s) ≤ n → slice n s ≡ s
slice_same zero String.[] h = refl
slice_same zero (String.◌∷◌ c s) h = absurd (omega (arith, h))
slice_same (suc n) String.[] h = refl
slice_same (suc n) (String.◌∷◌ c s) h = ap (String.◌∷◌ c) (slice_same n s (omega (arith, h)))

-- An agent id stays as it is.
pub sanitize_same : (id : String) → is_agent_id id ≡ true → sanitize_agent_id id ≡ id
unfolding is_agent_id matches sanitize_agent_id
sanitize_same id e =
    let same = dashed_same id (ground (arith, e)) in
    let whole = slice_same 64 id (ground (arith, e)) in
    let there = filled id (ground (arith, e)) in rw (same) (rw (whole) (rw (there) refl))
