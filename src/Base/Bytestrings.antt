-- ===== src/Base/Bytestrings.antt =====
-- Comparison of byte strings.
use Prim.Native.Nat.{ℕ, compare, Ordering}
use mathlib.Core.Path.{◌≡◌, refl}
use mathlib.Core.Logic.{◌↔◌, ◌⊎◌}
use mathlib.Core.Bool.{Bool, true, false, ◌||◌}
use tracepress.Base.Tests.{◌==◌}
use mathlib.Core.List.{List, [], ◌∷◌}
use native.Mathlib.Omega.{arith}

unfoldable pub eq_bytes : List ℕ → List ℕ → Bool
eq_bytes [] [] = true
eq_bytes (x ∷ xs) (y ∷ ys) = elim (compare x y) [ Ordering.eq ↦ eq_bytes xs ys | _ ↦ false ]
eq_bytes _ _ = false

pub eq_bytes_iff : (xs ys : List ℕ) → (eq_bytes xs ys ≡ true) ↔ (xs ≡ ys)
unfolding eq_bytes
eq_bytes_iff (x ∷ xs) (y ∷ ys) = ground (arith, eq_bytes_iff xs ys)
eq_bytes_iff _ _ = ground arith

pub eq_bytes_refl : (xs : List ℕ) → eq_bytes xs xs ≡ true
eq_bytes_refl xs = (eq_bytes_iff xs xs).1 refl

abbrev pub is_member : ℕ → List ℕ → Bool
is_member b [] = false
is_member b (x ∷ xs) = b == x || is_member b xs

-- `u8::is_ascii_whitespace`: space, tab, line feed, form feed and carriage return.
abbrev pub is_ascii_whitespace : ℕ → Bool
is_ascii_whitespace b = is_member b (0x20 ∷ 0x09 ∷ 0x0a ∷ 0x0c ∷ 0x0d ∷ [])

-- ASCII white space: space, tab, line feed, form feed, carriage return.
abbrev pub IsWhite : ℕ → Type 0
IsWhite b = (b ≡ 32) ⊎ ((b ≡ 9) ⊎ ((b ≡ 10) ⊎ ((b ≡ 12) ⊎ (b ≡ 13))))

pub is_ascii_whitespace_iff : (b : ℕ) → (is_ascii_whitespace b ≡ true) ↔ IsWhite b
is_ascii_whitespace_iff b = ground arith
