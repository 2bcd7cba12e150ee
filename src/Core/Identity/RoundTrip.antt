-- ===== src/Core/Identity/RoundTrip.antt =====
-- The text of a content identity and the identity that is read from it.
use tracepress.Base.{
  ℕ, zero, suc, ◌+◌, ◌*◌, ◌/◌, ◌%◌, ◌<◌, ◌≡◌, refl, ap, subst, ◌↔◌, not, [], ◌∷◌, map, arith, Bytes,
  ◌==◌, if◌then◌else◌, ==_iff, length, All, >>=-eq-ok, ok-injective, fail_if, ok,
}
use tracepress.Core.Identity.{
  sha256_bytes, sha256_hex_chars, decode_nibble, as_chunks, decode_pairs, zeros, from_str,
  hex_digit, fmt, is_within, is_exhausted,
}

-- An ASCII letter in lower case, and other bytes as they are.
abbrev pub to_ascii_lowercase : ℕ → ℕ
to_ascii_lowercase b = if is_within 0x41 0x5a b then b + 32 else b

-- A digest of SHA-256.
abbrev pub IsDigest : Bytes → Type 0
IsDigest d = (length d ≡ sha256_bytes) × All (λ b. b < 256) d

decode_nibble_iff :
    (b n : ℕ) → (decode_nibble b ≡ ok n) ↔ ((n < 16) × (hex_digit n ≡ to_ascii_lowercase b))
unfolding decode_nibble
decode_nibble_iff b n = ground arith

-- A byte and its two digits.
byte_digits :
    (high low : ℕ)
    → high < 16
    → low < 16
    → (high * 16 % 256 + low < 256)
      × ((high * 16 % 256 + low) / 16 ≡ high)
      × ((high * 16 % 256 + low) % 16 ≡ low)
byte_digits high low h l = (omega arith, omega arith, omega arith)

digits_byte : (b : ℕ) → b < 256 → (b / 16 < 16) × (b % 16 < 16) × (b / 16 * 16 % 256 + b % 16 ≡ b)
digits_byte b h = (omega arith, omega arith, omega arith)

-- `d` has `n` bytes, and its digits are the text `s` in lower case.
abbrev Prints : ℕ → Bytes → Bytes → Type 0
Prints n d s = (length d ≡ n) × All (λ b. b < 256) d × (fmt d ≡ map to_ascii_lowercase s)

-- A pair of digits and the rest.
Prints-cons :
    (n high low a b : ℕ) (d s : Bytes)
    → decode_nibble a ≡ ok high
    → decode_nibble b ≡ ok low
    → Prints n d s
    → Prints (suc n) ((high * 16 % 256 + low) ∷ d) (a ∷ b ∷ s)
unfolding fmt
Prints-cons n high low a b d s ea eb (size, small, text) =
    let (h, da) = (decode_nibble_iff a high).0 ea in
    let (l, db) = (decode_nibble_iff b low).0 eb in
    let (fits, upper, lower) = byte_digits high low h l in
    (ap suc size, (fits, small), rw (upper, lower, da, db, text))

-- What the loop gives is printed as the text was.
decode_pairs_sound :
    (outputs s d : Bytes)
    → length s ≡ length outputs * 2
    → decode_pairs outputs (as_chunks s).0 ≡ ok d
    → Prints (length outputs) d s
unfolding decode_pairs as_chunks fmt
decode_pairs_sound [] [] d size e = subst (λ z. Prints 0 z []) (ok-injective e) (refl, tt, refl)
decode_pairs_sound (o ∷ os) (a ∷ b ∷ s) d size e =
    let (high, ea, e1) = >>=-eq-ok (decode_nibble a) _ e in
    let (low, eb, e2) = >>=-eq-ok (decode_nibble b) _ e1 in
    let (rest, er, e3) = >>=-eq-ok (decode_pairs os (as_chunks s).0) _ e2 in
    subst (λ z. Prints (suc (length os)) z (a ∷ b ∷ s)) (ok-injective e3)
      (Prints-cons (length os) high low a b rest s ea eb
        (decode_pairs_sound os s rest (omega arith) er))
decode_pairs_sound [] (a ∷ s) d size e = ground arith
decode_pairs_sound (o ∷ os) [] d size e = ground arith
decode_pairs_sound (o ∷ os) (a ∷ []) d size e = ground arith

two_heads : {a b c d : ℕ} {xs ys : Bytes} → a ∷ b ∷ xs ≡ c ∷ d ∷ ys → (a ≡ c) × (b ≡ d) × (xs ≡ ys)
two_heads e = (cc, cc, cc)

-- The loop reads what is printed, in either case.
decode_pairs_complete :
    (outputs s d : Bytes)
    → Prints (length outputs) d s
    → decode_pairs outputs (as_chunks s).0 ≡ ok d
unfolding decode_pairs as_chunks fmt
decode_pairs_complete [] s [] p = refl
decode_pairs_complete (o ∷ os) (a ∷ b ∷ s) (x ∷ d) (size, (fits, small), text) =
    let (upper, lower, whole) = digits_byte x fits in
    let (high, low, rest) = two_heads text in
    rw
      (
        (decode_nibble_iff a (x / 16)).1 (upper, high),
        (decode_nibble_iff b (x % 16)).1 (lower, low),
        decode_pairs_complete os s d (omega arith, small, rest),
        whole,
      )
      refl
decode_pairs_complete (o ∷ os) [] (x ∷ d) (size, small, text) = cc
decode_pairs_complete (o ∷ os) (a ∷ []) (x ∷ d) (size, small, text) = cc
decode_pairs_complete [] s (x ∷ d) (size, small, text) = ground arith
decode_pairs_complete (o ∷ os) s [] (size, small, text) = ground arith

-- Text of an even length has no byte left over.
as_chunks-even : (n : ℕ) (s : Bytes) → length s ≡ n * 2 → (as_chunks s).1 ≡ []
unfolding as_chunks
as_chunks-even zero [] size = refl
as_chunks-even (suc n) (a ∷ b ∷ s) size = as_chunks-even n s (omega arith)
as_chunks-even zero (a ∷ s) size = ground arith
as_chunks-even (suc n) [] size = ground arith
as_chunks-even (suc n) (a ∷ []) size = ground arith

length-fmt : (d : Bytes) → length (fmt d) ≡ length d * 2
unfolding fmt
length-fmt [] = refl
length-fmt (x ∷ d) = omega (arith, length-fmt d)

length-map_lowercase : (s : Bytes) → length (map to_ascii_lowercase s) ≡ length s
length-map_lowercase [] = refl
length-map_lowercase (b ∷ s) = omega (arith, length-map_lowercase s)

-- A text is read as the digest `d` exactly when `d` is a digest and prints as that text in lower
-- case.
pub from_str_iff :
    (s d : Bytes) → (from_str s ≡ ok d) ↔ (IsDigest d × (fmt d ≡ map to_ascii_lowercase s))
unfolding from_str
from_str_iff s d = (
  (λ e.
      let (_, sized, e1) = >>=-eq-ok (fail_if (not (length s == sha256_hex_chars)) _) _ e in
      let (_, _, e2) = >>=-eq-ok (fail_if (not (is_exhausted (as_chunks s).1)) _) _ e1 in
      let (size, small, text) = decode_pairs_sound (zeros sha256_bytes) s d (ground arith) e2 in
      ((size, small), text)),
  λ ((size, small), text).
      let sized : length s ≡ 32 * 2 =
        omega (arith, size, length-fmt d, length-map_lowercase s, ap length text) in
      rw ((==_iff (length s) 64).1 sized, as_chunks-even 32 s sized)
        (decode_pairs_complete (zeros 32) s d (size, small, text)),
)
