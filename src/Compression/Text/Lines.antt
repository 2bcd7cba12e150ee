-- ===== src/Compression/Text/Lines.antt =====
-- `lines` cuts the input, and loses nothing.
use tracepress.Base.{suc, ◌≤◌, ◌≡◌, refl, [], ◌∷◌, ◌++◌, append_assoc, arith, Bytes, length}
use tracepress.Compression.Records.Expand.{concat}
use tracepress.Compression.Text.{lines_from, lines}

concat-lines_from : (current bs : Bytes) → concat (lines_from current bs) ≡ current ++ bs
unfolding lines_from
concat-lines_from [] [] = refl
concat-lines_from (c ∷ current) [] = refl
concat-lines_from current (b ∷ bs) = ground (
  arith,
  concat-lines_from [] bs,
  concat-lines_from (current ++ b ∷ []) bs,
  append_assoc current (b ∷ []) bs,
)

length-lines_from : (current bs : Bytes) → length (lines_from current bs) ≤ suc (length bs)
unfolding lines_from
length-lines_from [] [] = omega arith
length-lines_from (c ∷ current) [] = omega arith
length-lines_from current (b ∷ bs) =
    ground (arith, length-lines_from [] bs, length-lines_from (current ++ b ∷ []) bs)

-- The lines of an input, joined without separators, are the input.
pub concat-lines : (input : Bytes) → concat (lines input) ≡ input
unfolding lines
concat-lines input = concat-lines_from [] input

length-lines_from_nil : (bs : Bytes) → length (lines_from [] bs) ≤ length bs
unfolding lines_from
length-lines_from_nil [] = omega arith
length-lines_from_nil (b ∷ bs) =
    ground (arith, length-lines_from_nil bs, length-lines_from (b ∷ []) bs)

pub length-lines : (input : Bytes) → length (lines input) ≤ length input
unfolding lines
length-lines input = length-lines_from_nil input
