-- ===== src/Shared/Ids.antt =====
-- The identifier formats of packages/shared/src/parsers.ts.
use nebula_clone.Prelude.{ℕ, Bool, true, ◌||◌, ◌≡◌, ◌==◌, String, arith, ltb, leb, length}
use nebula_clone.Js.Pattern.{is_alnum, matches, is_ascii, matches-is_ascii, codes, matches-length}

-- [A-Za-z0-9._-]
abbrev device_id_class : ℕ → Bool
device_id_class c = is_alnum c || c == b'.' || c == b'_' || c == b'-'

-- [A-Za-z0-9-]
abbrev request_id_class : ℕ → Bool
request_id_class c = is_alnum c || c == b'-'

unfoldable pub is_device_id : String → Bool
unfolding matches
is_device_id value = matches device_id_class 128 value

unfoldable pub is_request_id : String → Bool
unfolding matches
is_request_id value = matches request_id_class 64 value

unfoldable pub is_occupant_id : String → Bool
unfolding matches
is_occupant_id value = matches request_id_class 64 value

device_id_class-lt : (c : ℕ) → device_id_class c ≡ true → ltb c 128 ≡ true
device_id_class-lt c e = ground arith

pub is_device_id-is_ascii : (s : String) → is_device_id s ≡ true → is_ascii s ≡ true
unfolding is_device_id
is_device_id-is_ascii s e = matches-is_ascii device_id_class 128 s device_id_class-lt e

pub is_device_id-length :
    (s : String)
    → is_device_id s ≡ true
    → (leb 1 (length (codes s)) ≡ true) × (leb (length (codes s)) 128 ≡ true)
unfolding is_device_id
is_device_id-length s e = matches-length device_id_class 128 s e
