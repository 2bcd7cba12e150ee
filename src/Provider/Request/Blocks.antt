-- ===== src/Provider/Request/Blocks.antt =====
-- The blocks of an input are among the elements and members of its document.
use tracepress.Base.{
  ℕ, suc, ◌+◌, ◌≤◌, ◌≡◌, refl, ap, ◌⊎◌, inl, inr, Bool, true, false, Option, none, some, arith,
  Bytes, if◌then◌else◌, eq_bytes,
}
use tracepress.Base.Ascii.{ascii}
use tracepress.Provider.Json.{
  Value, null, boolean, number, string, array, object, Values, end_array, item, Members, end_object,
  member, get,
}
use tracepress.Provider.Json.Shape.{count, count_values, count_members}
use tracepress.Provider.Request.{
  InputBlockCounts, number_of_items, count_kind, count_typed, count_block, count_each,
  count_content, count_blocks, count_input,
}

abbrev pub blocks : InputBlockCounts → ℕ
blocks c = c.text + c.image + c.file

either_found :
    (c : Bool) (w : Value) (o : Option Value) {v : Value}
    → (if c then some w else o) ≡ some v
    → (w ≡ v) ⊎ (o ≡ some v)
either_found true w o e = inl cc
either_found false w o e = inr e

-- A member that is found is counted.
pub count-get :
    (ms : Members) (key : Bytes) (v : Value)
    → get ms key ≡ some v
    → suc (count v) ≤ count_members ms
unfolding get count_members
count-get end_object key v e = absurd cc
count-get (member name w ms) key v e = elim (either_found (eq_bytes name key) w (get ms key) e) [
  | inl same ↦ omega (arith, ap count same)
  | inr later ↦ omega (arith, count-get ms key v later)
]

count_kind_adds :
    (kind : Bytes) (c : InputBlockCounts) → blocks (count_kind kind c) ≤ suc (blocks c)
unfolding count_kind
count_kind_adds kind c = ground arith

count_typed_adds :
    (o : Option Value) (c : InputBlockCounts) → blocks (count_typed o c) ≤ suc (blocks c)
count_typed_adds (some (string kind)) c = count_kind_adds kind c
count_typed_adds none c = omega arith
count_typed_adds (some null) c = omega arith
count_typed_adds (some (boolean _)) c = omega arith
count_typed_adds (some (number _)) c = omega arith
count_typed_adds (some (array _)) c = omega arith
count_typed_adds (some (object _)) c = omega arith

count_block_adds : (v : Value) (c : InputBlockCounts) → blocks (count_block v c) ≤ suc (blocks c)
count_block_adds (object members) c = count_typed_adds (get members (ascii "type")) c
count_block_adds null c = omega arith
count_block_adds (boolean _) c = omega arith
count_block_adds (number _) c = omega arith
count_block_adds (string _) c = omega arith
count_block_adds (array _) c = omega arith

count_each_adds :
    (vs : Values) (c : InputBlockCounts) → blocks (count_each vs c) ≤ count_values vs + blocks c
unfolding count_each count_values
count_each_adds end_array c = omega arith
count_each_adds (item v vs) c =
    omega (arith, count_block_adds v c, count_each_adds vs (count_block v c))

-- At most n elements and members are in the value, if there is one.
abbrev pub AtMost : Option Value → ℕ → Type 0
AtMost o n = (v : Value) → o ≡ some v → count v ≤ n

count_content_adds :
    (o : Option Value) (n : ℕ) (c : InputBlockCounts)
    → AtMost o n
    → blocks (count_content o c) ≤ n + blocks c
unfolding count
count_content_adds (some (array vs)) n c most =
    omega (arith, most (array vs) refl, count_each_adds vs c)
count_content_adds none n c most = omega arith
count_content_adds (some null) n c most = omega arith
count_content_adds (some (boolean _)) n c most = omega arith
count_content_adds (some (number _)) n c most = omega arith
count_content_adds (some (string _)) n c most = omega arith
count_content_adds (some (object _)) n c most = omega arith

get-AtMost : (ms : Members) (key : Bytes) → AtMost (get ms key) (count_members ms)
get-AtMost ms key v found = omega (arith, count-get ms key v found)

count_blocks_adds :
    (v : Value) (c : InputBlockCounts) → blocks (count_blocks v c) ≤ count v + blocks c
unfolding count
count_blocks_adds (object members) c =
    count_content_adds (get members (ascii "content")) (count_members members) c
      (get-AtMost members (ascii "content"))
count_blocks_adds null c = omega arith
count_blocks_adds (boolean _) c = omega arith
count_blocks_adds (number _) c = omega arith
count_blocks_adds (string _) c = omega arith
count_blocks_adds (array _) c = omega arith

pub count_input_adds :
    (vs : Values) (c : InputBlockCounts)
    → blocks (count_input vs c) + number_of_items vs ≤ count_values vs + blocks c
unfolding count_input count_values
count_input_adds end_array c = omega arith
count_input_adds (item v vs) c =
    omega (arith, count_blocks_adds v c, count_input_adds vs (count_blocks v c))
