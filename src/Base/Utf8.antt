-- ===== src/Base/Utf8.antt =====
-- `std::str::from_utf8` as a test: the well-formed byte sequences of the Unicode standard.
use Prim.Native.Nat.{ℕ, zero, suc}
use mathlib.Core.Bool.{Bool, true, false, ◌&&◌}
use mathlib.Core.List.{List, [], ◌∷◌}
use tracepress.Base.Tests.{leb, ltb, ◌==◌, if◌then◌else◌}

-- `tail n` awaits n continuation bytes; the other states restrict the byte after a lead byte.
pub data State : Type 0 where
  tail : ℕ → State
  after_e0 after_ed after_f0 after_f4 reject : State

abbrev within : ℕ → ℕ → ℕ → Bool
within lo hi b = leb lo b && leb b hi

abbrev lead : ℕ → State
lead b =
    if ltb b 0x80
    then tail 0
    else if within 0xc2 0xdf b
    then tail 1
    else if b == 0xe0
    then after_e0
    else if b == 0xed
    then after_ed
    else if within 0xe1 0xef b
    then tail 2
    else if b == 0xf0
    then after_f0
    else if within 0xf1 0xf3 b
    then tail 3
    else if b == 0xf4
    then after_f4
    else reject

step : State → ℕ → State
step (tail zero) b = lead b
step (tail (suc n)) b = if within 0x80 0xbf b then tail n else reject
step after_e0 b = if within 0xa0 0xbf b then tail 1 else reject
step after_ed b = if within 0x80 0x9f b then tail 1 else reject
step after_f0 b = if within 0x90 0xbf b then tail 2 else reject
step after_f4 b = if within 0x80 0x8f b then tail 2 else reject
step reject b = reject

run : State → List ℕ → Bool
run (tail zero) [] = true
run _ [] = false
run s (b ∷ bs) = run (step s b) bs

unfoldable pub is_utf8 : List ℕ → Bool
unfolding run step
is_utf8 = run (tail 0)
