-- ===== src/Js/Pattern.antt =====
-- The regular expressions of the sources: `^[class]{1,max}$`, over the code points of a text.
use Prim.Native.Char.{code}
use nebula_clone.Prelude.{
  ℕ, Bool, true, ◌&&◌, ◌||◌, ◌≡◌, List, [], ◌∷◌, String, length, all, leb, ltb, arith,
}

abbrev pub codes : String → List ℕ
codes String.[] = []
codes (String.◌∷◌ c s) = code c ∷ codes s

abbrev is_between : ℕ → ℕ → ℕ → Bool
is_between lo hi c = leb lo c && leb c hi

-- [A-Za-z0-9]
abbrev pub is_alnum : ℕ → Bool
is_alnum c = is_between b'A' b'Z' c || is_between b'a' b'z' c || is_between b'0' b'9' c

unfoldable pub matches : (ℕ → Bool) → ℕ → String → Bool
matches class most s = let cs = codes s in leb 1 (length cs) && leb (length cs) most && all class cs

abbrev pub is_ascii : String → Bool
is_ascii s = all (λ c. ltb c 128) (codes s)

all_mono :
    (p q : ℕ → Bool)
    → ((c : ℕ) → p c ≡ true → q c ≡ true)
    → (cs : List ℕ) → all p cs ≡ true
    → all q cs ≡ true
all_mono p q h [] e = e
all_mono p q h (c ∷ cs) e = ground (arith, h c, all_mono p q h cs)

pub matches-is_ascii :
    (class : ℕ → Bool) (most : ℕ) (s : String)
    → ((c : ℕ) → class c ≡ true → ltb c 128 ≡ true)
    → matches class most s ≡ true
    → is_ascii s ≡ true
unfolding matches
matches-is_ascii class most s h e = all_mono class (λ c. ltb c 128) h (codes s) (ground arith)

pub matches-length :
    (class : ℕ → Bool) (most : ℕ) (s : String)
    → matches class most s ≡ true
    → (leb 1 (length (codes s)) ≡ true) × (leb (length (codes s)) most ≡ true)
unfolding matches
matches-length class most s e = ground arith
