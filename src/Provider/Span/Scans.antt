-- ===== src/Provider/Span/Scans.antt =====
-- What the scans do with the text of a string, of brackets, of a scalar and of white space.
use tracepress.Base.{
  ℕ, suc, ◌+◌, ◌≤◌, ◌<◌, ◌≡◌, refl, sym, ap, ◌∙◌, true, false, Option, some, List, [], ◌∷◌, ◌++◌,
  append_assoc, arith, Bytes, ◌==◌, le→ltb, le→leb, u64_max, is_ascii_whitespace, IsWhite,
  is_ascii_whitespace_iff, length, All, length-append, take-length_append, drop-length_append,
}
use tracepress.Provider.Span.{
  skip_ascii_whitespace, string_contents, Scan, outside, in_string, goes_on, ends, scan_byte,
  close_depth, opens, next_offset, scan_container, container_length, ends_scalar, scalar_length,
  value_length, split_at, json_value_span,
}
use tracepress.Provider.Span.Printed.{
  Letter, plain, escape, IsLetter, print_letters, Pieces, no_piece, byte, text, nested, IsPieces,
  print_pieces, ValueText, scalar, quoted, bracketed, IsScalarByte, IsValueText, print_value,
  IsOpening, IsClosing,
}

pub skip-white :
    (blank bytes : Bytes)
    → All IsWhite blank
    → skip_ascii_whitespace (blank ++ bytes) ≡ skip_ascii_whitespace bytes
unfolding skip_ascii_whitespace
skip-white [] bytes w = refl
skip-white (b ∷ blank) bytes (w, ws) =
    rw ((is_ascii_whitespace_iff b).1 w) (skip-white blank bytes ws)

pub string_contents-letters :
    (letters : List Letter) (rest : Bytes)
    → All IsLetter letters
    → string_contents false (print_letters letters ++ (b'"' ∷ rest))
      ≡ some (print_letters letters, rest)
unfolding string_contents
string_contents-letters [] rest v = refl
string_contents-letters (plain b ∷ letters) rest ((q, e), v) =
    let quote : (b == 0x22) ≡ false = ground arith in
    let back : (b == 0x5c) ≡ false = ground arith in
    rw (quote, back, string_contents-letters letters rest v) refl
string_contents-letters (escape b ∷ letters) rest (_, v) =
    rw (string_contents-letters letters rest v) refl

-- One more for each byte.
abbrev pub behind : Bytes → Option ℕ → Option ℕ
behind [] o = o
behind (b ∷ bs) o = next_offset (behind bs o)

behind-append : (xs ys : Bytes) (o : Option ℕ) → behind (xs ++ ys) o ≡ behind xs (behind ys o)
behind-append [] ys o = refl
behind-append (x ∷ xs) ys o = ap next_offset (behind-append xs ys o)

behind-some : (xs : Bytes) (n : ℕ) → behind xs (some n) ≡ some (length xs + n)
behind-some [] n = ap some (omega arith)
behind-some (x ∷ xs) n = rw (behind-some xs n) (ap some (omega arith))

scan_step :
    (s t : Scan) (b : ℕ) (bs : Bytes)
    → scan_byte s b ≡ goes_on t
    → scan_container s (b ∷ bs) ≡ next_offset (scan_container t bs)
unfolding scan_container
scan_step s t b bs e = rw e refl

scan_letters :
    (depth : ℕ) (letters : List Letter) (rest : Bytes)
    → All IsLetter letters
    → scan_container (in_string depth) (print_letters letters ++ rest)
      ≡ behind (print_letters letters) (scan_container (in_string depth) rest)
scan_letters depth [] rest v = refl
scan_letters depth (plain b ∷ letters) rest ((q, e), v) =
    scan_step (in_string depth) (in_string depth) b (print_letters letters ++ rest) (ground arith)
    ∙ ap next_offset (scan_letters depth letters rest v)
scan_letters depth (escape b ∷ letters) rest (_, v) =
    scan_step (in_string depth) (Scan.escaped depth) 0x5c (b ∷ (print_letters letters ++ rest)) refl
    ∙ ap next_offset (
        scan_step (Scan.escaped depth) (in_string depth) b (print_letters letters ++ rest) refl
        ∙ ap next_offset (scan_letters depth letters rest v))

opening_byte :
    (depth b : ℕ) → IsOpening b → scan_byte (outside depth) b ≡ goes_on (outside (suc depth))
opening_byte depth b opening = ground arith

closing_byte : (depth b : ℕ) → IsClosing b → scan_byte (outside depth) b ≡ close_depth depth
closing_byte depth b closing = ground arith

-- Between brackets the scan passes over the pieces and comes back to its depth.
scan_pieces :
    (depth : ℕ) (pieces : Pieces) (rest : Bytes)
    → IsPieces pieces
    → scan_container (outside (suc depth)) (print_pieces pieces ++ rest)
      ≡ behind (print_pieces pieces) (scan_container (outside (suc depth)) rest)
scan_pieces depth no_piece rest v = refl
scan_pieces depth (byte b pieces) rest (others, v) =
    scan_step (outside (suc depth)) (outside (suc depth)) b (print_pieces pieces ++ rest)
      (ground arith)
    ∙ ap next_offset (scan_pieces depth pieces rest v)
scan_pieces depth (text letters pieces) rest (w, v) =
    let word = print_letters letters in
    let later = print_pieces pieces in
    scan_step (outside (suc depth)) (in_string (suc depth)) b'"' ((word ++ (b'"' ∷ later)) ++ rest)
      refl
    ∙ ap next_offset (
        ap (scan_container (in_string (suc depth))) (append_assoc word (b'"' ∷ later) rest)
        ∙ scan_letters (suc depth) letters (b'"' ∷ (later ++ rest)) w
        ∙ ap (behind word) (
            scan_step (in_string (suc depth)) (outside (suc depth)) b'"' (later ++ rest) refl
            ∙ ap next_offset (scan_pieces depth pieces rest v))
        ∙ sym (behind-append word (b'"' ∷ later) (scan_container (outside (suc depth)) rest)))
scan_pieces depth (nested o inner c pieces) rest (opening, v, closing, v') =
    let within = print_pieces inner in
    let later = print_pieces pieces in
    scan_step (outside (suc depth)) (outside (suc (suc depth))) o ((within ++ (c ∷ later)) ++ rest)
      (opening_byte (suc depth) o opening)
    ∙ ap next_offset (
        ap (scan_container (outside (suc (suc depth)))) (append_assoc within (c ∷ later) rest)
        ∙ scan_pieces (suc depth) inner (c ∷ (later ++ rest)) v
        ∙ ap (behind within) (
            scan_step (outside (suc (suc depth))) (outside (suc depth)) c (later ++ rest)
              (closing_byte (suc (suc depth)) c closing)
            ∙ ap next_offset (scan_pieces depth pieces rest v'))
        ∙ sym (behind-append within (c ∷ later) (scan_container (outside (suc depth)) rest)))

scan_end :
    (s : Scan) (b : ℕ) (bs : Bytes) → scan_byte s b ≡ ends → scan_container s (b ∷ bs) ≡ some 1
unfolding scan_container
scan_end s b bs e = rw e refl

container_length-print :
    (o : ℕ) (inner : Pieces) (c : ℕ) (rest : Bytes)
    → IsOpening o
    → IsPieces inner
    → IsClosing c
    → container_length (print_value (bracketed o inner c) ++ rest)
      ≡ some (length (print_value (bracketed o inner c)))
container_length-print o inner c rest opening v closing =
    let within = print_pieces inner in
    scan_step (outside 0) (outside 1) o ((within ++ (c ∷ [])) ++ rest) (opening_byte 0 o opening)
    ∙ ap next_offset (
        ap (scan_container (outside 1)) (append_assoc within (c ∷ []) rest)
        ∙ scan_pieces 0 inner (c ∷ rest) v
        ∙ ap (behind within) (scan_end (outside 1) c rest (closing_byte 1 c closing))
        ∙ behind-some within 1)
    ∙ ap some (omega (arith, length-append within (c ∷ [])))

-- A scalar ends where the text does, or at one of the bytes that end it.
abbrev pub EndsScalar : Bytes → Type 0
EndsScalar [] = Unit {0}
EndsScalar (b ∷ _) = ends_scalar b ≡ true

scalar_length-append :
    (bytes rest : Bytes)
    → All IsScalarByte bytes
    → EndsScalar rest
    → scalar_length (bytes ++ rest) ≡ length bytes
unfolding scalar_length
scalar_length-append [] [] v e = refl
scalar_length-append [] (b ∷ rest) v e = rw e refl
scalar_length-append (b ∷ bytes) rest (w, v) e =
    let inside : ends_scalar b ≡ false = ground arith in
    rw (inside, scalar_length-append bytes rest v e) refl

value_length-print :
    (v : ValueText) (rest : Bytes)
    → IsValueText v
    → EndsScalar rest
    → value_length (print_value v ++ rest) ≡ some (length (print_value v))
unfolding value_length
value_length-print (scalar []) rest (filled, w) e = absurd (omega arith)
value_length-print (scalar (b ∷ bytes)) rest (filled, (w, ws)) e =
    let unopened : opens b ≡ false = ground arith in
    let unquoted : (b == 0x22) ≡ false = ground arith in
    rw (unopened, unquoted, scalar_length-append (b ∷ bytes) rest (w, ws) e) refl
value_length-print (quoted letters) rest (w, short) e =
    let word = print_letters letters in
    rw
      (
        append_assoc word (b'"' ∷ []) rest,
        string_contents-letters letters rest w,
        le→ltb u64_max (length word + 2) short,
      )
      (ap some (omega (arith, length-append word (b'"' ∷ []))))
value_length-print (bracketed o inner c) rest (opening, v, closing) e =
    let opened : opens o ≡ true = ground arith in
    rw (opened, container_length-print o inner c rest opening v closing) refl

split_at-append :
    (xs ys : Bytes) → 0 < length xs → split_at (xs ++ ys) (some (length xs)) ≡ some (xs, ys)
split_at-append xs ys filled =
    let some_there : (length xs == 0) ≡ false = ground arith in
    let fits : length xs ≤ length (xs ++ ys) = omega (arith, length-append xs ys) in
    rw (some_there, le→leb _ _ fits, take-length_append xs ys, drop-length_append xs ys) refl

print_value-filled : (v : ValueText) → IsValueText v → 0 < length (print_value v)
print_value-filled (scalar bytes) w = w.0
print_value-filled (quoted letters) w = omega arith
print_value-filled (bracketed o inner c) w = omega arith

pub json_value_span-print :
    (v : ValueText) (rest : Bytes)
    → IsValueText v
    → EndsScalar rest
    → json_value_span (print_value v ++ rest) ≡ some (print_value v, rest)
unfolding json_value_span
json_value_span-print v rest w e =
    rw (value_length-print v rest w e)
      (split_at-append (print_value v) rest (print_value-filled v w))

-- A value does not begin with white space.
pub skip-print_value :
    (v : ValueText) (rest : Bytes)
    → IsValueText v
    → skip_ascii_whitespace (print_value v ++ rest) ≡ print_value v ++ rest
unfolding skip_ascii_whitespace
skip-print_value (scalar []) rest (filled, w) = absurd (omega arith)
skip-print_value (scalar (b ∷ bytes)) rest (filled, (w, ws)) =
    let dark : is_ascii_whitespace b ≡ false = ground arith in rw dark refl
skip-print_value (quoted letters) rest w = refl
skip-print_value (bracketed o inner c) rest (opening, v, closing) =
    let dark : is_ascii_whitespace o ≡ false = ground arith in rw dark refl
