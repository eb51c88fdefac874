-- ===== src/Js/Number.antt =====
-- A JavaScript `number` as the sources use it: an integer, a finite value that is no integer (of
-- which the integer part is kept), or `NaN` and the infinities.
use nebula_clone.Prelude.{ℕ, suc, ◌-◌, ◌%◌, Bool, true, false}

-- `negsuc n` is -(n + 1).
pub data ℤ : Type 0 where
  pos : ℕ → ℤ
  negsuc : ℕ → ℤ

pub data Number : Type 0 where
  int : ℤ → Number
  fraction : ℤ → Number
  not_finite : Number

abbrev pub nat : ℕ → Number
nat n = int (pos n)

-- `Number.isInteger` and `Number.isFinite`.
abbrev pub is_integer : Number → Bool
is_integer (int z) = true
is_integer _ = false

abbrev pub is_finite : Number → Bool
is_finite not_finite = false
is_finite _ = true

abbrev wrap : ℕ → ℤ → ℕ
wrap m (pos n) = n % m
wrap m (negsuc n) = m - suc (n % m)

-- ToUint16 and ToUint32: the integer part modulo a power of two.
abbrev pub to_uint : ℕ → Number → ℕ
to_uint m (int z) = wrap m z
to_uint m (fraction z) = wrap m z
to_uint m not_finite = 0
