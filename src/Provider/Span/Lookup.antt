-- ===== src/Provider/Span/Lookup.antt =====
-- `member_span` on the text of an object.
use tracepress.Base.{
  ℕ, zero, suc, ◌+◌, ◌<◌, ◌≡◌, refl, Bool, true, false, Option, none, some, List, [], ◌∷◌, ◌++◌,
  arith, Bytes, if◌then◌else◌, eq_bytes, IsWhite, is_ascii_whitespace_iff, length, All,
  length-append,
}
use tracepress.Provider.Span.{skip_ascii_whitespace, read_member, find_member, member_span}
use tracepress.Provider.Span.Printed.{
  print_letters, print_value, MemberText, IsMemberText, print_member, print_members, print_object,
  value_of,
}
use tracepress.Provider.Span.Scans.{
  skip-white, string_contents-letters, EndsScalar, json_value_span-print, skip-print_value,
}
use tracepress.Provider.Span.Members.{find_member_same}

blank-EndsScalar :
    (blank tail : Bytes) → All IsWhite blank → EndsScalar tail → EndsScalar (blank ++ tail)
blank-EndsScalar [] tail w e = e
blank-EndsScalar (b ∷ blank) tail (w, ws) e = ground (arith, (is_ascii_whitespace_iff b).1 w)

read_member-print_member :
    (m : MemberText) (tail : Bytes)
    → IsMemberText m
    → EndsScalar tail
    → read_member (print_member m tail)
      ≡ some (print_letters m.key, print_value m.value, m.after_value ++ tail)
unfolding read_member skip_ascii_whitespace
read_member-print_member m tail w e =
    let behind_value = m.after_value ++ tail in
    let value_on = print_value m.value ++ behind_value in
    let colon_on = m.before_colon ++ (b':' ∷ (m.before_value ++ value_on)) in
    rw
      (
        skip-white m.before_key (b'"' ∷ (print_letters m.key ++ (b'"' ∷ colon_on))) w.key_blank,
        string_contents-letters m.key colon_on w.key_letters,
        skip-white m.before_colon (b':' ∷ (m.before_value ++ value_on)) w.colon_blank,
        skip-white m.before_value value_on w.value_blank,
        skip-print_value m.value behind_value w.value_text,
        json_value_span-print m.value behind_value w.value_text
            (blank-EndsScalar m.after_value tail w.after_blank e),
      )
      refl

some_if :
    (c : Bool) (x y : Option Bytes) → (if c then some x else some y) ≡ some (if c then x else y)
some_if true x y = refl
some_if false x y = refl

find_member-print_members :
    (fuel : ℕ) (members : List MemberText) (blank rest key : Bytes)
    → length members < fuel
    → All IsMemberText members
    → All IsWhite blank
    → find_member fuel (print_members members blank rest) key ≡ some (value_of members key)
unfolding find_member skip_ascii_whitespace
find_member-print_members zero members blank rest key enough w b = absurd (omega arith)
find_member-print_members (suc fuel) [] blank rest key enough w b =
    unfold read_member in rw (skip-white blank (b'}' ∷ rest) b) refl
find_member-print_members (suc fuel) (m ∷ []) blank rest key enough (w, _) b =
    rw
      (
        read_member-print_member m (b'}' ∷ rest) w refl,
        skip-white m.after_value (b'}' ∷ rest) w.after_blank,
      )
      (some_if (eq_bytes (print_letters m.key) key) (some (print_value m.value)) none)
find_member-print_members (suc fuel) (m ∷ m' ∷ ms) blank rest key enough (w, ws) b =
    let later = print_members (m' ∷ ms) blank rest in
    rw
      (
        read_member-print_member m (b',' ∷ later) w refl,
        skip-white m.after_value (b',' ∷ later) w.after_blank,
        find_member-print_members fuel (m' ∷ ms) blank rest key (omega arith) ws b,
      )
      (some_if (eq_bytes (print_letters m.key) key) (some (print_value m.value))
        (value_of (m' ∷ ms) key))

-- For every object text whose members, white space and values are well formed, with strings of
-- representable length, and whatever stands behind it: the span under a key is the exact text of the
-- value of the first member with that key, whatever the values hold, and none if no member has it.
pub member_span-print_object :
    (before blank rest key : Bytes) (members : List MemberText)
    → All IsWhite before
    → All IsMemberText members
    → All IsWhite blank
    → member_span (print_object before members blank rest) key ≡ value_of members key
unfolding member_span skip_ascii_whitespace
member_span-print_object before blank rest key members w ws b =
    let remaining = print_members members blank rest in
    let bytes = print_object before members blank rest in
    let plenty = suc (length members + length remaining) in
    let fewer : length remaining < suc (length bytes) =
      omega (arith, length-append before (b'{' ∷ remaining)) in
    rw
      (
        skip-white before (b'{' ∷ remaining) w,
        find_member_same (suc (length bytes)) plenty remaining key fewer (omega arith),
        find_member-print_members plenty members blank rest key (omega arith) ws b,
      )
      refl
