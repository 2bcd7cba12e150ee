-- ===== src/Provider/Span/Printed.antt =====
-- JSON objects as texts: what the scan for a member is for. The scan does not look into a scalar and
-- does not compare the kinds of brackets, and neither do these texts.
use tracepress.Base.{
  ℕ, ◌+◌, ◌≤◌, ◌<◌, ◌≡◌, ◌≢◌, ◌⊎◌, Option, none, some, List, [], ◌∷◌, ◌++◌, Bytes, if◌then◌else◌,
  u64_max, eq_bytes, IsWhite, length, All,
}

-- A byte of a string that stands for itself, or a backslash and any byte.
pub data Letter : Type 0 where
  plain escape : ℕ → Letter

abbrev pub IsLetter : Letter → Type 0
IsLetter (plain b) = (b ≢ b'"') × (b ≢ 0x5c)
IsLetter (escape b) = Unit {0}

abbrev pub print_letters : List Letter → Bytes
print_letters [] = []
print_letters (plain b ∷ letters) = b ∷ print_letters letters
print_letters (escape b ∷ letters) = 0x5c ∷ b ∷ print_letters letters

-- What stands between two brackets: bytes, strings, and brackets with the like between them.
pub data Pieces : Type 0 where
  no_piece : Pieces
  byte : ℕ → Pieces → Pieces
  text : List Letter → Pieces → Pieces
  nested : ℕ → Pieces → ℕ → Pieces → Pieces

abbrev pub IsOpening : ℕ → Type 0
IsOpening b = (b ≡ b'{') ⊎ (b ≡ b'[')

abbrev pub IsClosing : ℕ → Type 0
IsClosing b = (b ≡ b'}') ⊎ (b ≡ b']')

abbrev pub IsPieces : Pieces → Type 0
IsPieces no_piece = Unit {0}
IsPieces (byte b rest) = All (λ s. b ≢ s) (b'"' ∷ b'{' ∷ b'[' ∷ b'}' ∷ b']' ∷ []) × IsPieces rest
IsPieces (text letters rest) = All IsLetter letters × IsPieces rest
IsPieces (nested o inner c rest) = IsOpening o × IsPieces inner × IsClosing c × IsPieces rest

abbrev pub print_pieces : Pieces → Bytes
print_pieces no_piece = []
print_pieces (byte b rest) = b ∷ print_pieces rest
print_pieces (text letters rest) = b'"' ∷ (print_letters letters ++ (b'"' ∷ print_pieces rest))
print_pieces (nested o inner c rest) = o ∷ (print_pieces inner ++ (c ∷ print_pieces rest))

-- The text of a value: a scalar, a string, or an array or object.
pub data ValueText : Type 0 where
  scalar : Bytes → ValueText
  quoted : List Letter → ValueText
  bracketed : ℕ → Pieces → ℕ → ValueText

-- No byte that ends a scalar, and none that begins another value.
abbrev pub IsScalarByte : ℕ → Type 0
IsScalarByte b =
    All (λ s. b ≢ s) (b',' ∷ b'}' ∷ b']' ∷ b'{' ∷ b'[' ∷ b'"' ∷ 32 ∷ 9 ∷ 10 ∷ 12 ∷ 13 ∷ [])

abbrev pub IsValueText : ValueText → Type 0
IsValueText (scalar bytes) = (0 < length bytes) × All IsScalarByte bytes
IsValueText (quoted letters) = All IsLetter letters × (length (print_letters letters) + 2 ≤ u64_max)
IsValueText (bracketed o inner c) = IsOpening o × IsPieces inner × IsClosing c

abbrev pub print_value : ValueText → Bytes
print_value (scalar bytes) = bytes
print_value (quoted letters) = b'"' ∷ (print_letters letters ++ (b'"' ∷ []))
print_value (bracketed o inner c) = o ∷ (print_pieces inner ++ (c ∷ []))

-- A key and a value, with the white space around them.
pub record MemberText : Type 0 where
  pub before_key : Bytes
  pub key : List Letter
  pub before_colon : Bytes
  pub before_value : Bytes
  pub value : ValueText
  pub after_value : Bytes

pub record IsMemberText (m : MemberText) : Type 0 where
  pub key_blank : All IsWhite m.before_key
  pub key_letters : All IsLetter m.key
  pub colon_blank : All IsWhite m.before_colon
  pub value_blank : All IsWhite m.before_value
  pub value_text : IsValueText m.value
  pub after_blank : All IsWhite m.after_value

abbrev pub print_member : MemberText → Bytes → Bytes
print_member m tail =
    m.before_key
    ++ (b'"'
        ∷ (print_letters m.key
            ++ (b'"'
                ∷ (m.before_colon
                    ++ (b':'
                        ∷ (m.before_value ++ (print_value m.value ++ (m.after_value ++ tail))))))))

-- The members with commas between them, and the closing brace.
abbrev pub print_members : List MemberText → Bytes → Bytes → Bytes
print_members [] blank rest = blank ++ (b'}' ∷ rest)
print_members (m ∷ []) blank rest = print_member m (b'}' ∷ rest)
print_members (m ∷ m' ∷ ms) blank rest = print_member m (b',' ∷ print_members (m' ∷ ms) blank rest)

-- An object with white space before it and any bytes behind it.
abbrev pub print_object : Bytes → List MemberText → Bytes → Bytes → Bytes
print_object before members blank rest = before ++ (b'{' ∷ print_members members blank rest)

-- The text of the first member under the key.
abbrev pub value_of : List MemberText → Bytes → Option Bytes
value_of [] key = none
value_of (m ∷ ms) key =
    let later = value_of ms key in
    if eq_bytes (print_letters m.key) key then some (print_value m.value) else later
