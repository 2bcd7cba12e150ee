-- ===== src/Compression/Varint/RoundTrip.antt =====
-- What `write_varint` appends, `read_usize` reads back.
use native.Mathlib.Nat.{div-add-mod, mod-eq_of_lt}
use native.Mathlib.Numerals.{towards_suc}
use native.Mathlib.Decide.{dec_lt}
use tracepress.Base.{
  ℕ, zero, suc, ◌+◌, ◌*◌, ◌/◌, ◌%◌, ◌^◌, ◌≤◌, ◌<◌, ◌≡◌, ap, ◌∙◌, ◌≢◌, some, [], ◌∷◌, ◌++◌,
  append_assoc, arith, Bytes, u64_max, IsU64, length, length-append, get_elem?,
  get_elem?-append_length, ok,
}
use tracepress.Compression.Varint.{groups, write_varint, read_groups, read_usize}

-- The space that a number takes.
pub length-groups :
    (fuel value : ℕ)
    → 0 < fuel
    → (1 ≤ length (groups fuel value)) × (length (groups fuel value) ≤ fuel)
unfolding groups
length-groups zero value h = absurd (omega arith)
length-groups (suc zero) value h = ground arith
length-groups (suc (suc fuel)) value h = ground (arith, length-groups (suc fuel) (value / 128))

shift_group : (shift : ℕ) → 2 ^ (shift + 7) ≡ 128 * 2 ^ shift
shift_group shift = simp towards_suc (omega arith)

weigh_groups :
    (value shift : ℕ) → value % 128 * 2 ^ shift + value / 128 * 2 ^ (shift + 7) ≡ value * 2 ^ shift
weigh_groups value shift = omega (
  arith,
  ap (λ (t : ℕ). value / 128 * t) (shift_group shift),
  ap (λ (t : ℕ). t * 2 ^ shift) (div-add-mod value 128),
)

groups_last : (fuel value : ℕ) → value < 128 → groups (suc fuel) value ≡ value ∷ []
unfolding groups
groups_last fuel value h = ground arith

groups_more :
    (fuel value : ℕ)
    → 128 ≤ value
    → groups (suc fuel) value ≡ (value % 128 + 128) ∷ groups fuel (value / 128)
unfolding groups
groups_more fuel value h = ground arith

-- One round of the reader on a byte that ends the number.
read_last :
    (rounds shift acc byte cursor : ℕ) (input : Bytes)
    → get_elem? input cursor ≡ some byte
    → byte < 128
    → (shift ≡ 63 → byte ≤ 1)
    → IsU64 (cursor + 1)
    → read_groups (suc rounds) shift input cursor acc ≡ ok (acc + byte * 2 ^ shift, cursor + 1)
unfolding read_groups
read_last rounds shift acc byte cursor input e small top fits = ground (arith, mod-eq_of_lt small)

-- One round on a byte that announces another.
read_inner :
    (rounds shift acc group cursor : ℕ) (input : Bytes)
    → get_elem? input cursor ≡ some (group + 128)
    → group < 128
    → shift ≢ 63
    → IsU64 (cursor + 1)
    → read_groups (suc rounds) shift input cursor acc
      ≡ read_groups rounds (shift + 7) input (cursor + 1) (acc + group * 2 ^ shift)
unfolding read_groups
read_inner rounds shift acc group cursor input e small top fits =
    let m : (group + 128) % 128 ≡ group = omega arith in ground arith

last_fits : (shift acc value : ℕ) → acc + value * 2 ^ shift ≤ u64_max → shift ≡ 63 → value ≤ 1
last_fits shift acc value h e = let h' : acc + value * 2 ^ 63 ≤ u64_max = rw e at h in omega arith

-- Reading at the end of `before` the number written there returns it with the cursor behind it.
abbrev Reads : ℕ → ℕ → ℕ → ℕ → Bytes → Bytes → Type 0
Reads rounds shift acc value before post =
    read_groups rounds shift (before ++ (groups rounds value ++ post)) (length before) acc
    ≡ ok (acc + value * 2 ^ shift, length before + length (groups rounds value))

Reads-last :
    (rounds shift acc value : ℕ) (before post : Bytes)
    → value < 128
    → acc + value * 2 ^ shift ≤ u64_max
    → IsU64 (length before + length (groups (suc rounds) value))
    → Reads (suc rounds) shift acc value before post
Reads-last rounds shift acc value before post done fits room = rw (groups_last rounds value done) (
    read_last rounds shift acc value (length before) _ (get_elem?-append_length before value post)
      done (last_fits shift acc value fits) (omega (arith, length-groups (suc rounds) value)))

Reads-more :
    (rounds shift acc value : ℕ) (before post : Bytes)
    → 128 ≤ value
    → shift ≢ 63
    → IsU64 (length before + length (groups (suc rounds) value))
    → 0 < rounds
    → Reads rounds
        (shift + 7)
        (acc + value % 128 * 2 ^ shift)
        (value / 128)
        (before ++ ((value % 128 + 128) ∷ []))
        post
    → Reads (suc rounds) shift acc value before post
Reads-more rounds shift acc value before post more top room go ih =
    let head : ℕ = value % 128 + 128 in
    let tail : Bytes = groups rounds (value / 128) in
    rw (groups_more rounds value more) (
      read_inner rounds shift acc (value % 128) (length before) _
        (get_elem?-append_length before head (tail ++ post)) (omega arith) top
        (omega (arith, length-groups (suc rounds) value))
      ∙ ground (
        arith,
        append_assoc before (head ∷ []) (tail ++ post),
        length-append before (head ∷ []),
        weigh_groups value shift,
      ))

-- `value` is what is still to be read, and it counts from bit `shift` on.
read_groups-groups :
    (rounds shift acc value : ℕ) (before post : Bytes)
    → shift + 7 * suc rounds ≡ 70
    → value < 128 ^ suc rounds
    → acc + value * 2 ^ shift ≤ u64_max
    → IsU64 (length before + length (groups (suc rounds) value))
    → Reads (suc rounds) shift acc value before post
read_groups-groups zero shift acc value before post s small fits room =
    Reads-last zero shift acc value before post (omega arith) fits room
read_groups-groups (suc rounds) shift acc value before post s small fits room =
    elim (dec_lt value 128) [
      | yes done ↦ Reads-last (suc rounds) shift acc value before post done fits room
      | no more ↦
          Reads-more (suc rounds) shift acc value before post (omega arith) (omega arith) room
            (omega arith)
            (read_groups-groups rounds (shift + 7) (acc + value % 128 * 2 ^ shift) (value / 128) _
              post (omega arith) (omega arith) (omega (arith, weigh_groups value shift))
              (omega (
                arith,
                length-append before ((value % 128 + 128) ∷ []),
                ap length (groups_more (suc rounds) value (omega arith)),
              )))
    ]

-- Whatever stands before and after it, a 64-bit number that `write_varint` appended is read back by
-- `read_usize` from the place where it was written, and the cursor then stands right behind it, if
-- that place is representable.
pub read_usize-write_varint :
    (before post : Bytes) (value : ℕ)
    → IsU64 value
    → IsU64 (length (write_varint before value))
    → read_usize (write_varint before value ++ post) (length before)
      ≡ ok (value, length (write_varint before value))
unfolding read_usize write_varint
read_usize-write_varint before post value small room =
    let len = length-append before (groups 10 value) in
    rw (append_assoc before (groups 10 value) post, len)
      (read_groups-groups 9 0 0 value before post (omega arith) (omega arith) (omega arith)
          (omega (arith, len))
        ∙ ap (λ v. ok (v, length before + length (groups 10 value))) (omega arith))
