-- ===== src/Agent/Packets.antt =====
-- What the two incremental parsers of the agent share: the loop that takes whole packets off the front
-- of a buffer of bytes until more bytes are needed or the stream is corrupt, and its laws.
pub mod Helper
pub mod Mirror
pub mod MirrorLaws
use nebula_clone.Prelude.{
  ℕ, zero, suc, ◌+◌, ◌≤◌, ◌<◌, List, [], ◌∷◌, ◌++◌, String, length, ◌≡◌, refl, sym, ap, ◌∙◌, arith,
  length-append, append_assoc, ◌⊎◌, inl, inr,
}

pub data Next (A : Type 0) : Type 0 where
  need_more : Next A
  corrupt : Next A
  packet : A → List ℕ → Next A

pub data Drained (A : Type 0) : Type 0 where
  corrupted : Drained A
  drained : List A → List ℕ → Drained A

abbrev pub before : {A : Type 0} → List A → Drained A → Drained A
before ps corrupted = corrupted
before ps (drained qs rest) = drained (ps ++ qs) rest

-- The loop. Each packet takes a byte at least, so that the length of the buffer is fuel enough.
unfoldable pub drain : {A : Type 0} → (List ℕ → Next A) → ℕ → List ℕ → Drained A
drain next zero buffer = drained [] buffer
drain next (suc n) buffer = elim (next buffer) [
  | need_more ↦ drained [] buffer
  | corrupt ↦ corrupted
  | packet p rest ↦ before (p ∷ []) (drain next n rest)
]

-- The loop as a function of its buffer.
unfoldable pub drain_all : {A : Type 0} → (List ℕ → Next A) → List ℕ → Drained A
drain_all next buffer = drain next (length buffer) buffer

-- What the loop relies on: what is read of a packet is not changed by the bytes behind it.
pub record IsFraming {A : Type 0} (next : List ℕ → Next A) : Type 0 where
  pub empty : next [] ≡ need_more
  pub corrupt_append : (a b : List ℕ) → next a ≡ corrupt → next (a ++ b) ≡ corrupt
  pub packet_append :
      (a b : List ℕ) (p : A) (rest : List ℕ)
      → next a ≡ packet p rest
      → next (a ++ b) ≡ packet p (rest ++ b)
  pub packet_shrinks :
      (a : List ℕ) (p : A) (rest : List ℕ) → next a ≡ packet p rest → length rest < length a

pub Next-cases :
    {A : Type 0} (r : Next A)
    → (r ≡ need_more) ⊎ ((r ≡ corrupt) ⊎ ((p : A) × (rest : List ℕ) × (r ≡ packet p rest)))
Next-cases need_more = inl refl
Next-cases corrupt = inr (inl refl)
Next-cases (packet p rest) = inr (inr (p, rest, refl))

pub Drained-cases :
    {A : Type 0} (d : Drained A)
    → (d ≡ corrupted) ⊎ ((ps : List A) × (rest : List ℕ) × (d ≡ drained ps rest))
Drained-cases corrupted = inl refl
Drained-cases (drained ps rest) = inr (ps, rest, refl)

before-before :
    {A : Type 0} (ps qs : List A) (d : Drained A) → before ps (before qs d) ≡ before (ps ++ qs) d
before-before ps qs corrupted = refl
before-before ps qs (drained rs rest) = ap (λ l. drained l rest) (sym (append_assoc ps qs rs))

before-nil : {A : Type 0} (d : Drained A) → before [] d ≡ d
before-nil corrupted = refl
before-nil (drained qs rest) = refl

abbrev left : {A : Type 0} → Drained A → ℕ
left corrupted = 0
left (drained ps rest) = length rest

left-before : {A : Type 0} (ps : List A) (d : Drained A) → left (before ps d) ≡ left d
left-before ps corrupted = refl
left-before ps (drained qs rest) = refl

-- The loop on the bytes that one run left and those that came after.
abbrev continued : {A : Type 0} → (List ℕ → Next A) → ℕ → Drained A → List ℕ → Drained A
continued next n corrupted b = corrupted
continued next n (drained ps rest) b = before ps (drain next n (rest ++ b))

module _ {A : Type 0} (next : List ℕ → Next A) (laws : IsFraming next) where
  drain-need_more : (n : ℕ) (a : List ℕ) → next a ≡ need_more → drain next (suc n) a ≡ drained [] a
  unfolding drain
  drain-need_more n a e = rw (drain, e) refl

  drain-corrupt : (n : ℕ) (a : List ℕ) → next a ≡ corrupt → drain next (suc n) a ≡ corrupted
  unfolding drain
  drain-corrupt n a e = rw (drain, e) refl

  drain-packet :
      (n : ℕ) (a : List ℕ) (p : A) (rest : List ℕ)
      → next a ≡ packet p rest
      → drain next (suc n) a ≡ before (p ∷ []) (drain next n rest)
  unfolding drain
  drain-packet n a p rest e = rw (drain, e) refl

  drain-nil : (n : ℕ) → drain next n [] ≡ drained [] []
  unfolding drain
  drain-nil zero = refl
  drain-nil (suc n) = drain-need_more n [] laws.empty

  -- Any fuel from the length of the buffer on gives the same run.
  drain-enough :
      (n m : ℕ) (a : List ℕ) → length a ≤ n → length a ≤ m → drain next n a ≡ drain next m a
  drain-enough n m [] h k = drain-nil n ∙ sym (drain-nil m)
  drain-enough zero m (x ∷ a) h k = absurd (omega (arith, h))
  drain-enough (suc n) zero (x ∷ a) h k = absurd (omega (arith, k))
  drain-enough (suc n) (suc m) (x ∷ a) h k = elim (Next-cases (next (x ∷ a))) [
    | inl e ↦ drain-need_more n (x ∷ a) e ∙ sym (drain-need_more m (x ∷ a) e)
    | inr (inl e) ↦ drain-corrupt n (x ∷ a) e ∙ sym (drain-corrupt m (x ∷ a) e)
    | inr (inr (p, rest, e)) ↦
        let less = laws.packet_shrinks (x ∷ a) p rest e in
        drain-packet n (x ∷ a) p rest e
        ∙ ap (before (p ∷ []))
            (drain-enough n m rest (omega (arith, less, h)) (omega (arith, less, k)))
        ∙ sym (drain-packet m (x ∷ a) p rest e)
  ]

  drain-left : (n : ℕ) (a : List ℕ) → left (drain next n a) ≤ length a
  unfolding drain
  drain-left zero a = omega arith
  drain-left (suc n) a = elim (Next-cases (next a)) [
    | inl e ↦ rw (drain-need_more n a e) (omega arith)
    | inr (inl e) ↦ rw (drain-corrupt n a e) (omega arith)
    | inr (inr (p, rest, e)) ↦
        let less = laws.packet_shrinks a p rest e in
        let ih = drain-left n rest in
        rw (drain-packet n a p rest e, left-before (p ∷ []) (drain next n rest))
          (omega (arith, less, ih))
  ]

  continued-before :
      (n : ℕ) (p : A) (d : Drained A) (b : List ℕ)
      → left d + length b ≤ n
      → before (p ∷ []) (continued next n d b) ≡ continued next (suc n) (before (p ∷ []) d) b
  continued-before n p corrupted b h = refl
  continued-before n p (drained qs rest) b h =
      let fits : length (rest ++ b) ≤ n = omega (arith, length-append rest b, h) in
      before-before (p ∷ []) qs (drain next n (rest ++ b))
      ∙ ap (before (p ∷ qs)) (drain-enough n (suc n) (rest ++ b) fits (omega (arith, fits)))

  -- The bytes that follow are read as if they had been there from the start.
  drain-append :
      (n : ℕ) (a b : List ℕ)
      → length (a ++ b) ≤ n
      → drain next n (a ++ b) ≡ continued next n (drain next n a) b
  drain-append n [] b h = rw (drain-nil n) (sym (before-nil (drain next n b)))
  drain-append zero (x ∷ a) b h = absurd (omega (arith, h))
  drain-append (suc n) (x ∷ a) b h = elim (Next-cases (next (x ∷ a))) [
    | inl e ↦ rw (drain-need_more n (x ∷ a) e) (sym (before-nil (drain next (suc n) (x ∷ a ++ b))))
    | inr (inl e) ↦
        rw (drain-corrupt n (x ∷ a) e)
          (drain-corrupt n (x ∷ a ++ b) (laws.corrupt_append (x ∷ a) b e))
    | inr (inr (p, rest, e)) ↦
        let less = laws.packet_shrinks (x ∷ a) p rest e in
        let fits : length (rest ++ b) ≤ n =
          omega (arith, length-append rest b, length-append a b, less, h) in
        let room : left (drain next n rest) + length b ≤ n =
          omega (arith, drain-left n rest, length-append rest b, fits) in
        drain-packet n (x ∷ a ++ b) p (rest ++ b) (laws.packet_append (x ∷ a) b p rest e)
        ∙ ap (before (p ∷ [])) (drain-append n rest b fits)
        ∙ continued-before n p (drain next n rest) b room
        ∙ ap (λ d. continued next (suc n) d b) (sym (drain-packet n (x ∷ a) p rest e))
  ]

  abbrev pub resume : Drained A → List ℕ → Drained A
  resume corrupted b = corrupted
  resume (drained ps rest) b = before ps (drain_all next (rest ++ b))

  pub drain_all-packet :
      (a : List ℕ) (p : A) (rest : List ℕ)
      → next a ≡ packet p rest
      → drain_all next a ≡ before (p ∷ []) (drain_all next rest)
  unfolding drain_all
  drain_all-packet [] p rest e = absurd (ground (arith, laws.empty, e))
  drain_all-packet (x ∷ a) p rest e =
      let less = laws.packet_shrinks (x ∷ a) p rest e in
      drain-packet (length a) (x ∷ a) p rest e
      ∙ ap (before (p ∷ []))
          (drain-enough (length a) (length rest) rest (omega (arith, less)) (omega arith))

  pub drain_all-nil : drain_all next [] ≡ drained [] []
  unfolding drain_all
  drain_all-nil = drain-nil 0

  continued-then :
      (n : ℕ) (d : Drained A) (b : List ℕ)
      → left d + length b ≤ n
      → continued next n d b ≡ resume d b
  unfolding drain_all
  continued-then n corrupted b h = refl
  continued-then n (drained ps rest) b h = ap (before ps) (
      drain-enough n (length (rest ++ b)) (rest ++ b) (omega (arith, length-append rest b, h))
        (omega arith))

  -- Reading a buffer in two pieces gives the packets of the whole, and leaves what the whole leaves.
  pub drain_all-append : (a b : List ℕ) → drain_all next (a ++ b) ≡ resume (drain_all next a) b
  unfolding drain_all
  drain_all-append a b =
      let n = length (a ++ b) in
      let within : length a ≤ n = omega (arith, length-append a b) in
      let short : left (drain next (length a) a) + length b ≤ n =
        omega (arith, drain-left (length a) a, length-append a b) in
      drain-append n a b (omega arith)
      ∙ ap (λ d. continued next n d b) (drain-enough n (length a) a within (omega arith))
      ∙ continued-then n (drain next (length a) a) b short
