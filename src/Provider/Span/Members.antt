-- ===== src/Provider/Span/Members.antt =====
-- The span that the scan answers with is a slice of its input, and the loop ends by itself.
use tracepress.Base.{
  ℕ, zero, suc, ◌<◌, ◌≡◌, refl, sym, ap, ◌∙◌, subst, ◌⊎◌, inl, inr, Bool, true, false, Option, none,
  some, ◌++◌, append_assoc, arith, Bytes, if◌then◌else◌, Bool-cases, Option-cases, eq_bytes, length,
}
use tracepress.Provider.Span.{
  strip_prefix, skip_ascii_whitespace, read_member, find_member, member_span, answer_of,
}
use tracepress.Provider.Span.Slices.{
  IsEnd, IsEnd-trans, >>=-some, strip_prefix-IsRest, read_member_splits,
}

-- Not empty, and between two parts of the input.
abbrev pub IsSlice : Bytes → Bytes → Type 0
IsSlice value bytes =
    (before after : Bytes) × (bytes ≡ before ++ (value ++ after)) × (0 < length value)

IsEnd-IsSlice :
    (value rest bytes : Bytes) → IsEnd rest bytes → IsSlice value rest → IsSlice value bytes
IsEnd-IsSlice value rest bytes (b, e) (before, after, split, filled) =
    (b ++ before, after, rw (e, split) (sym (append_assoc b before (value ++ after))), filled)

either_member :
    (c : Bool) (v : Bytes) (rest : Option (Option Bytes)) {value : Bytes}
    → (if c then some (some v) else rest) ≡ some (some value)
    → (v ≡ value) ⊎ (rest ≡ some (some value))
either_member true v rest e = inl cc
either_member false v rest e = inr e

find_member-IsSlice :
    (fuel : ℕ) (remaining key value : Bytes)
    → find_member fuel remaining key ≡ some (some value)
    → IsSlice value remaining
unfolding find_member
find_member-IsSlice zero remaining key value e = absurd cc
find_member-IsSlice (suc fuel) remaining key value e = elim (Option-cases (read_member remaining)) [
  | inl none_read ↦ absurd (let h = rw none_read at e in cc)
  | inr (found, e1) ↦
      let (name, v, after) = found in
      let ((before, split), filled, _) = read_member_splits remaining name v after e1 in
      elim (either_member (eq_bytes name key) v _ (rw e1 at e)) [
        | inl same ↦ subst (λ w. IsSlice w remaining) same (before, after, split, filled)
        | inr later ↦ elim (Option-cases (strip_prefix 0x2c (skip_ascii_whitespace after))) [
          | inl last ↦ absurd (let h = rw last at later in cc)
          | inr (next, e3) ↦
              IsEnd-IsSlice value next remaining
                (IsEnd-trans next after remaining (strip_prefix-IsRest 0x2c after next e3).0
                  (IsEnd-trans after (v ++ after) remaining (v, refl) (before, split)))
                (find_member-IsSlice fuel next key value (rw e3 at later))
        ]
      ]
]

answer_of-some :
    (o : Option (Option Bytes)) (value : Bytes) → answer_of o ≡ some value → o ≡ some (some value)
answer_of-some none value e = cc
answer_of-some (some a) value e = cc

-- Whatever bytes and key `member_span` is given, the span it answers with is not empty, and the
-- bytes are something before it, the span, and something behind it.
pub member_span-IsSlice :
    (bytes key value : Bytes) → member_span bytes key ≡ some value → IsSlice value bytes
unfolding member_span
member_span-IsSlice bytes key value e =
    let (remaining, e1, e2) = >>=-some (strip_prefix 0x7b (skip_ascii_whitespace bytes)) _ e in
    IsEnd-IsSlice value remaining bytes (strip_prefix-IsRest 0x7b bytes remaining e1).0
      (find_member-IsSlice (suc (length bytes)) remaining key value (answer_of-some _ value e2))

find_member_ends :
    (n : ℕ) (remaining key : Bytes)
    → length remaining < n
    → (answer : Option Bytes) × (find_member n remaining key ≡ some answer)
unfolding find_member
find_member_ends zero remaining key h = absurd (omega arith)
find_member_ends (suc n) remaining key h = elim (Option-cases (read_member remaining)) [
  | inl none_read ↦ (none, rw none_read refl)
  | inr (found, e1) ↦
      let (name, v, after) = found in
      let (_, _, shorter) = read_member_splits remaining name v after e1 in
      elim (Bool-cases (eq_bytes name key)) [
        | inl same ↦ (some v, rw (e1, same) refl)
        | inr other ↦ elim (Option-cases (strip_prefix 0x2c (skip_ascii_whitespace after))) [
          | inl last ↦ (none, rw (e1, other, last) refl)
          | inr (next, e2) ↦
              let (_, fewer) = strip_prefix-IsRest 0x2c after next e2 in
              let (answer, ended) = find_member_ends n next key (omega arith) in
              (answer, rw (e1, other, e2) ended)
        ]
      ]
]

pub find_member_same :
    (n m : ℕ) (remaining key : Bytes)
    → length remaining < n
    → length remaining < m
    → find_member n remaining key ≡ find_member m remaining key
unfolding find_member
find_member_same zero m remaining key h k = absurd (omega arith)
find_member_same (suc n) zero remaining key h k = absurd (omega arith)
find_member_same (suc n) (suc m) remaining key h k = elim (Option-cases (read_member remaining)) [
  | inl none_read ↦ rw none_read refl
  | inr (found, e1) ↦
      let (name, v, after) = found in
      let (_, _, shorter) = read_member_splits remaining name v after e1 in
      rw e1 (elim (Option-cases (strip_prefix 0x2c (skip_ascii_whitespace after))) [
        | inl last ↦ rw last refl
        | inr (next, e2) ↦
            let (_, fewer) = strip_prefix-IsRest 0x2c after next e2 in
            rw e2 (
              ap (λ r. if eq_bytes name key then some (some v) else r)
                (find_member_same n m next key (omega arith) (omega arith)))
      ])
]

-- For all bytes and keys the loop of `member_span` has one answer, and any number of rounds above the
-- number of bytes is enough for it to end with that answer.
pub find_member_enough :
    (remaining key : Bytes)
    → (answer : Option Bytes) × ((fuel : ℕ)
        → length remaining < fuel
        → find_member fuel remaining key ≡ some answer)
find_member_enough remaining key =
    let rounds = suc (length remaining) in
    let (answer, ended) = find_member_ends rounds remaining key (omega arith) in
    (answer, λ fuel enough. find_member_same fuel rounds remaining key enough (omega arith) ∙ ended)
