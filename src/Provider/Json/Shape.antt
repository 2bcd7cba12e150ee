-- ===== src/Provider/Json/Shape.antt =====
-- The size, the depth and the keys of a JSON value, and what a further member changes.
use tracepress.Base.{
  ℕ, suc, ◌+◌, ◌≡◌, refl, ◌≢◌, Bool, false, ◌||◌, arith, Bytes, leb, if◌then◌else◌, eq_bytes,
  eq_bytes_iff,
}
use tracepress.Provider.Json.{
  Value, null, boolean, number, string, array, object, Values, end_array, item, Members, end_object,
  member, is_known, insert,
}

abbrev pub larger : ℕ → ℕ → ℕ
larger a b = if leb a b then b else a

-- The elements and members of a value at all levels, and the levels of arrays and objects.
unfoldable mutual
  pub count : Value → ℕ
  count null = 0
  count (boolean _) = 0
  count (number _) = 0
  count (string _) = 0
  count (array vs) = count_values vs
  count (object ms) = count_members ms

  pub count_values : Values → ℕ
  count_values end_array = 0
  count_values (item v vs) = suc (count v + count_values vs)

  pub count_members : Members → ℕ
  count_members end_object = 0
  count_members (member _ v ms) = suc (count v + count_members ms)

unfoldable mutual
  pub nesting : Value → ℕ
  nesting null = 0
  nesting (boolean _) = 0
  nesting (number _) = 0
  nesting (string _) = 0
  nesting (array vs) = suc (nesting_values vs)
  nesting (object ms) = suc (nesting_members ms)

  pub nesting_values : Values → ℕ
  nesting_values end_array = 0
  nesting_values (item v vs) = larger (nesting v) (nesting_values vs)

  pub nesting_members : Members → ℕ
  nesting_members end_object = 0
  nesting_members (member _ v ms) = larger (nesting v) (nesting_members ms)

-- No object, at any level, has a key twice.
unfoldable mutual
  pub HasDistinctKeys : Value → Type 0
  HasDistinctKeys null = Unit
  HasDistinctKeys (boolean _) = Unit
  HasDistinctKeys (number _) = Unit
  HasDistinctKeys (string _) = Unit
  HasDistinctKeys (array vs) = ItemsDistinct vs
  HasDistinctKeys (object ms) = MembersDistinct ms

  pub ItemsDistinct : Values → Type 0
  ItemsDistinct end_array = Unit
  ItemsDistinct (item v vs) = HasDistinctKeys v × ItemsDistinct vs

  pub MembersDistinct : Members → Type 0
  MembersDistinct end_object = Unit
  MembersDistinct (member key v ms) =
      (is_known ms key ≡ false) × HasDistinctKeys v × MembersDistinct ms

pub known-insert :
    (ms : Members) (key name : Bytes) (v : Value)
    → is_known ms name ≡ false
    → key ≢ name
    → is_known (insert ms key v) name ≡ false
known-insert end_object key name v e apart = ground (arith, eq_bytes_iff key name)
known-insert (member other w ms) key name v e apart =
    let rest = λ (h : is_known ms name ≡ false). known-insert ms key name v h apart in
    ground (arith, rest)

pub keys_apart : (name key : Bytes) (b : Bool) → (eq_bytes name key || b) ≡ false → key ≢ name
keys_apart name key b e same = ground (arith, eq_bytes_iff name key, same)

pub insert-MembersDistinct :
    (ms : Members) (key : Bytes) (v : Value)
    → is_known ms key ≡ false
    → HasDistinctKeys v
    → MembersDistinct ms
    → MembersDistinct (insert ms key v)
unfolding MembersDistinct
insert-MembersDistinct end_object key v e hv _ = (refl, hv, tt)
insert-MembersDistinct (member name w ms) key v e hv (fresh, hw, hms) = (
  known-insert ms key name v fresh (keys_apart name key (is_known ms key) e),
  hw,
  insert-MembersDistinct ms key v (ground (arith, e)) hv hms,
)

pub count-insert :
    (ms : Members) (key : Bytes) (v : Value)
    → count_members (insert ms key v) ≡ suc (count v + count_members ms)
unfolding count_members
count-insert end_object key v = omega arith
count-insert (member name w ms) key v = omega (arith, count-insert ms key v)

pub nesting-insert :
    (ms : Members) (key : Bytes) (v : Value)
    → nesting_members (insert ms key v) ≡ larger (nesting v) (nesting_members ms)
unfolding nesting_members
nesting-insert end_object key v = ground arith
nesting-insert (member name w ms) key v = ground (arith, nesting-insert ms key v)
