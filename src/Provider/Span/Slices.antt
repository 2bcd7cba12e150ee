-- ===== src/Provider/Span/Slices.antt =====
-- What a member's pieces are slices of, and that every round makes the rest shorter.
use tracepress.Base.{
  ℕ, ◌+◌, ◌≤◌, ◌<◌, ◌≡◌, refl, sym, ap, ◌∙◌, subst, Bool, true, false, not, ◌&&◌, Option, none,
  some, [], ◌∷◌, ◌++◌, append_assoc, arith, Bytes, ◌==◌, if◌then◌else◌, is_ascii_whitespace, length,
  length-append, take-append-drop, length-take,
}
use tracepress.Provider.Span.{
  strip_prefix, skip_ascii_whitespace, string_contents, json_string_contents, value_length,
  json_value_span, cons_split, split_at, read_member, ◌>>=◌,
}

-- `after` is the end of `bytes`.
abbrev pub IsEnd : Bytes → Bytes → Type 0
IsEnd after bytes = (before : Bytes) × (bytes ≡ before ++ after)

pub IsEnd-trans : (xs ys zs : Bytes) → IsEnd xs ys → IsEnd ys zs → IsEnd xs zs
IsEnd-trans xs ys zs (a, p) (b, q) = (b ++ a, rw (q, p) (sym (append_assoc b a xs)))

IsEnd-length : (xs ys : Bytes) → IsEnd xs ys → length xs ≤ length ys
IsEnd-length xs ys (a, p) = rw p (omega (arith, length-append a xs))

pub >>=-some :
    {A B : Type 0} (o : Option A) (next : A → Option B) {b : B}
    → o >>= next ≡ some b
    → (a : A) × (o ≡ some a) × (next a ≡ some b)
>>=-some none next e = cc
>>=-some (some a) next e = (a, refl, e)

kept-IsEnd :
    (c : Bool) (b : ℕ) (rest bs : Bytes)
    → IsEnd rest bs
    → IsEnd (if c then rest else b ∷ bs) (b ∷ bs)
kept-IsEnd true b rest bs (before, e) = (b ∷ before, ap (◌∷◌ b) e)
kept-IsEnd false b rest bs _ = ([], refl)

skip-IsEnd : (bytes : Bytes) → IsEnd (skip_ascii_whitespace bytes) bytes
unfolding skip_ascii_whitespace
skip-IsEnd [] = ([], refl)
skip-IsEnd (b ∷ bs) =
    kept-IsEnd (is_ascii_whitespace b) b (skip_ascii_whitespace bs) bs (skip-IsEnd bs)

-- A rest that is shorter.
abbrev pub IsRest : Bytes → Bytes → Type 0
IsRest rest bytes = IsEnd rest bytes × (length rest < length bytes)

stripped-IsRest :
    (c : Bool) (x : ℕ) (xs rest : Bytes)
    → ◌≡◌ {A = Option Bytes} (if c then some xs else none) (some rest)
    → IsRest rest (x ∷ xs)
stripped-IsRest true x xs rest e =
    let same : xs ≡ rest = cc in ((x ∷ [], rw same refl), rw same (omega arith))
stripped-IsRest false x xs rest e = absurd cc

-- The byte that is asked for, behind white space.
pub strip_prefix-IsRest :
    (b : ℕ) (bytes rest : Bytes)
    → strip_prefix b (skip_ascii_whitespace bytes) ≡ some rest
    → IsRest rest bytes
strip_prefix-IsRest b bytes rest e =
    let (ended, shorter) = go (skip_ascii_whitespace bytes) e in
    let skipped = skip-IsEnd bytes in
    let fewer = IsEnd-length (skip_ascii_whitespace bytes) bytes skipped in
    (IsEnd-trans rest (skip_ascii_whitespace bytes) bytes ended skipped, omega arith)
  where
    go : (from : Bytes) → strip_prefix b from ≡ some rest → IsRest rest from
    go [] found = absurd cc
    go (x ∷ xs) found = stripped-IsRest (x == b) x xs rest found

contents_step :
    (c : Bool) (b : ℕ) (bs contents after : Bytes) (rest : Option (Bytes × Bytes))
    → ((inner : Bytes) → rest ≡ some (inner, after) → IsEnd after bs)
    → (if c then some ([], bs) else cons_split b rest) ≡ some (contents, after)
    → IsEnd after (b ∷ bs)
contents_step true b bs contents after rest further e =
    let same : bs ≡ after = cc in (b ∷ [], rw same refl)
contents_step false b bs contents after none further e = absurd cc
contents_step false b bs contents after (some (inner, behind)) further e =
    let same : behind ≡ after = cc in
    let (before, split) = further inner (rw same refl) in (b ∷ before, ap (◌∷◌ b) split)

contents-IsEnd :
    (escaped : Bool) (bytes contents after : Bytes)
    → string_contents escaped bytes ≡ some (contents, after)
    → IsEnd after bytes
unfolding string_contents
contents-IsEnd escaped [] contents after e = absurd cc
contents-IsEnd escaped (b ∷ bs) contents after e =
    contents_step (not escaped && b == 0x22) b bs contents after
      (string_contents (not escaped && b == 0x5c) bs)
      (λ inner. contents-IsEnd (not escaped && b == 0x5c) bs inner after) e

split_at_splits :
    (bytes value after : Bytes) (o : Option ℕ)
    → split_at bytes o ≡ some (value, after)
    → (bytes ≡ value ++ after) × (0 < length value)
split_at_splits bytes value after none e = absurd cc
split_at_splits bytes value after (some n) e =
    ground (arith, take-append-drop n bytes, length-take n bytes)

value_span_splits :
    (bytes value after : Bytes)
    → json_value_span bytes ≡ some (value, after)
    → (bytes ≡ value ++ after) × (0 < length value)
unfolding json_value_span
value_span_splits bytes value after = split_at_splits bytes value after (value_length bytes)

-- The value and what is behind it end the input, which is longer than what is behind.
pub read_member_splits :
    (bytes name value after : Bytes)
    → read_member bytes ≡ some (name, value, after)
    → IsEnd (value ++ after) bytes × (0 < length value) × (length after < length bytes)
unfolding read_member
read_member_splits bytes name value after e =
    let (quoted, e1, e2) = >>=-some (strip_prefix 0x22 (skip_ascii_whitespace bytes)) _ e in
    let (read, e3, e4) = >>=-some (json_string_contents quoted) _ e2 in
    let (name', after_key) = read in
    let (after_colon, e5, e6) =
      >>=-some (strip_prefix 0x3a (skip_ascii_whitespace after_key)) _ e4 in
    let (split, e7, e8) = >>=-some (json_value_span (skip_ascii_whitespace after_colon)) _ e6 in
    let (value', after') = split in
    let values : value' ≡ value = cc in
    let afters : after' ≡ after = cc in
    let (ended1, shorter1) = strip_prefix-IsRest 0x22 bytes quoted e1 in
    let ended2 = contents-IsEnd false quoted name' after_key e3 in
    let (ended3, shorter3) = strip_prefix-IsRest 0x3a after_key after_colon e5 in
    let skipped = skip-IsEnd after_colon in
    let (whole, filled) = value_span_splits (skip_ascii_whitespace after_colon) value' after' e7 in
    let from_quoted =
      IsEnd-trans (skip_ascii_whitespace after_colon) after_colon quoted skipped
        (IsEnd-trans after_colon after_key quoted ended3 ended2) in
    let all = IsEnd-trans (skip_ascii_whitespace after_colon) quoted bytes from_quoted ended1 in
    let pieces : skip_ascii_whitespace after_colon ≡ value ++ after =
      whole ∙ (λ i. values i ++ afters i) in
    let size = IsEnd-length (skip_ascii_whitespace after_colon) quoted from_quoted in
    let parts : length (skip_ascii_whitespace after_colon) ≡ length value + length after =
      ap length pieces ∙ length-append value after in
    (subst (λ w. IsEnd w bytes) pieces all, subst (λ w. 0 < length w) values filled, omega arith)
