-- ===== src/Provider/Span.antt =====
-- crates/tracepress-provider/src/json.rs: the scan for the bytes of one member of an object.
mod Slices
pub mod Printed
mod Scans
pub mod Lookup
mod Tests
pub mod Members
use tracepress.Base.{
  ℕ, zero, suc, Bool, false, not, ◌&&◌, ◌||◌, Option, none, some, [], ◌∷◌, Bytes, leb, ◌==◌,
  if◌then◌else◌, checked_add, eq_bytes, is_ascii_whitespace, length, take, drop,
}

abbrev pub strip_prefix : ℕ → Bytes → Option Bytes
strip_prefix b [] = none
strip_prefix b (x ∷ xs) = if x == b then some xs else none

unfoldable pub skip_ascii_whitespace : Bytes → Bytes
skip_ascii_whitespace [] = []
skip_ascii_whitespace (b ∷ bs) =
    let rest = skip_ascii_whitespace bs in if is_ascii_whitespace b then rest else b ∷ bs

-- Two slices of the input, one behind the other.
abbrev pub Split : Type 0
Split = Option (Bytes × Bytes)

abbrev pub cons_split : ℕ → Split → Split
cons_split b none = none
cons_split b (some (before, after)) = some (b ∷ before, after)

-- The loop of `json_string_contents`; the Boolean is `escaped`.
unfoldable pub string_contents : Bool → Bytes → Split
string_contents escaped [] = none
string_contents escaped (b ∷ bs) =
    let rest = cons_split b (string_contents (not escaped && b == 0x5c) bs) in
    if not escaped && b == 0x22 then some ([], bs) else rest

abbrev pub json_string_contents : Bytes → Split
json_string_contents = string_contents false

abbrev pub opens : ℕ → Bool
opens b = b == 0x7b || b == 0x5b

abbrev pub closes : ℕ → Bool
closes b = b == 0x7d || b == 0x5d

-- The variables of the loop of `container_length`: `depth`, and `in_string` with `escaped`.
pub data Scan : Type 0 where
  outside in_string escaped : ℕ → Scan

-- How a round of the loop ends: with the next round, with the end of the container, or with none.
pub data Round : Type 0 where
  goes_on : Scan → Round
  ends breaks : Round

abbrev pub close_depth : ℕ → Round
close_depth zero = breaks
close_depth (suc zero) = ends
close_depth (suc (suc depth)) = goes_on (outside (suc depth))

-- A depth within the length of a slice fits `usize`.
abbrev pub scan_byte : Scan → ℕ → Round
scan_byte (escaped depth) b = goes_on (in_string depth)
scan_byte (in_string depth) b =
    if b == 0x5c
    then goes_on (escaped depth)
    else if b == 0x22
    then goes_on (outside depth)
    else goes_on (in_string depth)
scan_byte (outside depth) b =
    if b == 0x22
    then goes_on (in_string depth)
    else if opens b
    then goes_on (outside (suc depth))
    else if closes b
    then close_depth depth
    else goes_on (outside depth)

abbrev pub next_offset : Option ℕ → Option ℕ
next_offset none = none
next_offset (some n) = some (suc n)

-- The end of a round, with what the rounds behind it give.
abbrev pub after_round : Round → (Scan → Option ℕ) → Option ℕ
after_round (goes_on t) rest = next_offset (rest t)
after_round ends rest = some 1
after_round breaks rest = none

-- The bytes from here to the end of the container.
unfoldable pub scan_container : Scan → Bytes → Option ℕ
scan_container s [] = none
scan_container s (b ∷ bs) = after_round (scan_byte s b) (λ t. scan_container t bs)

abbrev pub container_length : Bytes → Option ℕ
container_length = scan_container (outside 0)

abbrev ends_scalar : ℕ → Bool
ends_scalar b = b == 0x2c || closes b || is_ascii_whitespace b

-- `position`, or the whole length.
pub scalar_length : Bytes → ℕ
scalar_length [] = 0
scalar_length (b ∷ bs) = let rest = suc (scalar_length bs) in if ends_scalar b then 0 else rest

abbrev quoted_length : Split → Option ℕ
quoted_length none = none
quoted_length (some (contents, _)) = checked_add (length contents) 2

-- The `match` on the first byte.
unfoldable pub value_length : Bytes → Option ℕ
value_length [] = none
value_length (b ∷ bs) =
    if opens b
    then container_length (b ∷ bs)
    else if b == 0x22
    then quoted_length (json_string_contents bs)
    else some (scalar_length (b ∷ bs))

-- `bytes.get(..length)` and `bytes.get(length..)`.
abbrev pub split_at : Bytes → Option ℕ → Split
split_at bytes none = none
split_at bytes (some n) =
    if n == 0
    then none
    else if leb n (length bytes)
    then some (take n bytes, drop n bytes)
    else none

unfoldable pub json_value_span : Bytes → Split
json_value_span bytes = split_at bytes (value_length bytes)

infixl 5 ◌>>=◌
abbrev pub ◌>>=◌ : {A B : Type 0} → Option A → (A → Option B) → Option B
none >>= next = none
some a >>= next = next a

-- A member that starts at the slice, and the bytes behind it.
abbrev pub Member : Type 0
Member = Bytes × Bytes × Bytes

unfoldable pub read_member : Bytes → Option Member
read_member remaining = do
  quoted ← strip_prefix 0x22 (skip_ascii_whitespace remaining)
  (name, after_key) ← json_string_contents quoted
  after_colon ← strip_prefix 0x3a (skip_ascii_whitespace after_key)
  (value, after_value) ← json_value_span (skip_ascii_whitespace after_colon)
  some (name, value, after_value)

-- The operator `?` in the loop: without a value the loop ends, and its answer is that there is none.
abbrev pub or_end : {A : Type 0} → Option A → (A → Option (Option Bytes)) → Option (Option Bytes)
or_end none next = some none
or_end (some a) next = next a

-- The loop, with at most as many rounds as the fuel says: none when they are used up, and otherwise
-- what the loop answers.
unfoldable pub find_member : ℕ → Bytes → Bytes → Option (Option Bytes)
find_member zero remaining key = none
find_member (suc fuel) remaining key = or_end (read_member remaining) (λ (name, value, after_value).
    let rest =
      or_end (strip_prefix 0x2c (skip_ascii_whitespace after_value))
        (λ next. find_member fuel next key) in
    if eq_bytes name key then some (some value) else rest)

-- A loop that uses up its rounds would have no answer.
abbrev pub answer_of : Option (Option Bytes) → Option Bytes
answer_of none = none
answer_of (some answer) = answer

unfoldable pub member_span : Bytes → Bytes → Option Bytes
member_span bytes key = do
  remaining ← strip_prefix 0x7b (skip_ascii_whitespace bytes)
  answer_of (find_member (suc (length bytes)) remaining key)
