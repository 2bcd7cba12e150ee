-- ===== src/Provider/Json.antt =====
-- crates/tracepress-provider/src/json.rs: JSON documents built under a budget of depth and members.
pub mod Shape
mod Charges
pub mod Bounds
use tracepress.Base.{
  ℕ, Bool, true, false, ◌||◌, Option, none, some, Bytes, ltb, if◌then◌else◌, saturating_add,
  eq_bytes, Result, ok, err,
}
use tracepress.Base.Int.{ℤ}
use tracepress.Provider.Domain.{ObservationLimits, ObservationError, resource_limit, malformed}

-- A number of serde_json is what its accessors answer: `as_i64`, `as_u64`, and whether `as_f64`
-- gives a finite number that a signed column of 64 bits can hold.
pub record Number : Type 0 where
  pub as_i64 : Option ℤ
  pub as_u64 : Option ℕ
  pub has_durable_magnitude : Bool

-- `serde_json::Value`. An object keeps its members in a list, each key once.
mutual
  pub data Value : Type 0 where
    null : Value
    boolean : Bool → Value
    number : Number → Value
    string : Bytes → Value
    array : Values → Value
    object : Members → Value

  pub data Values : Type 0 where
    end_array : Values
    item : Value → Values → Values

  pub data Members : Type 0 where
    end_object : Members
    member : Bytes → Value → Members → Members

-- `Map::get`.
unfoldable pub get : Members → Bytes → Option Value
get end_object key = none
get (member name v rest) key =
    let found = get rest key in if eq_bytes name key then some v else found

-- What serde_json reads off the bytes, call by call of the visitor: a scalar, or the accesses to a
-- sequence or a built. The broken ones are its own errors; a number without a finite representation
-- is none.
mutual
  pub data Document : Type 0 where
    unit : Document
    boolean : Bool → Document
    number : Option Number → Document
    string : Bytes → Document
    sequence : Elements → Document
    entries : Entries → Document
    broken : Document

  pub data Elements : Type 0 where
    end_sequence broken_sequence : Elements
    element : Document → Elements → Elements

  pub data Entries : Type 0 where
    end_entries broken_entries : Entries
    entry : Bytes → Document → Entries → Entries

pub record Budget : Type 0 where
  pub items : ℕ
  pub max_items : ℕ
  pub max_depth : ℕ
  pub exhausted : Bool

-- A step that charges the budget and may fail. Why it failed is read off the budget.
abbrev pub Charged : Type 0 → Type 0
Charged A = Budget → Budget × Option A

abbrev pub and_then : {A B : Type 0} → Budget × Option A → (A → Charged B) → Budget × Option B
and_then (b, none) next = (b, none)
and_then (b, some a) next = next a b

infixl 5 ◌>>=◌
abbrev ◌>>=◌ : {A B : Type 0} → Charged A → (A → Charged B) → Charged B
(first >>= next) b = and_then (first b) next

infixl 5 ◌>>◌
abbrev ◌>>◌ : {A : Type 0} → Charged (Unit {0}) → Charged A → Charged A
(first >> second) b = and_then (first b) (λ _. second)

abbrev return : {A : Type 0} → A → Charged A
return a b = (b, some a)

abbrev fail : {A : Type 0} → Charged A
fail b = (b, none)

unfoldable pub add_item : Charged (Unit {0})
add_item b =
    let next = saturating_add b.items 1 in
    if ltb b.max_items next
    then (record b { items = next; exhausted = true }, none)
    else (record b { items = next }, some tt)

unfoldable pub enter : ℕ → Charged ℕ
enter depth b =
    let next = saturating_add depth 1 in
    if ltb b.max_depth next then (record b { exhausted = true }, none) else (b, some next)

abbrev pub is_known : Members → Bytes → Bool
is_known end_object key = false
is_known (member name _ rest) key = eq_bytes name key || is_known rest key

-- `built.insert(key, value)` of a key that is not there.
abbrev pub insert : Members → Bytes → Value → Members
insert end_object key v = member key v end_object
insert (member name w rest) key v = member name w (insert rest key v)

abbrev pub fail_if_known : Bool → Charged (Unit {0})
fail_if_known true = fail
fail_if_known false = return tt

-- `Number::from_f64` of a number that is not finite is none.
abbrev visit_number : Option Number → Charged Value
visit_number none = fail
visit_number (some n) = return (number n)

-- The methods of the visitor, and the loops of `visit_seq` and `visit_map`.
unfoldable mutual
  pub visit : Document → ℕ → Charged Value
  visit unit depth = return null
  visit (boolean b) depth = return (boolean b)
  visit (number n) depth = visit_number n
  visit (string s) depth = return (string s)
  visit (sequence elements) depth = do
    next ← enter depth
    values ← visit_seq elements next
    return (array values)
  visit (entries es) depth = do
    next ← enter depth
    members ← visit_map es next end_object
    return (object members)
  visit broken depth = fail

  pub visit_seq : Elements → ℕ → Charged Values
  visit_seq end_sequence depth = return end_array
  visit_seq broken_sequence depth = fail
  visit_seq (element d rest) depth = do
    v ← visit d depth
    add_item
    values ← visit_seq rest depth
    return (item v values)

  pub visit_map : Entries → ℕ → Members → Charged Members
  visit_map end_entries depth built = return built
  visit_map broken_entries depth built = fail
  visit_map (entry key d rest) depth built = do
    add_item
    v ← visit d depth
    fail_if_known (is_known built key)
    visit_map rest depth (insert built key v)

abbrev pub budget_of : ObservationLimits → Budget
budget_of l = record {
  items = 0;
  max_items = l.max_json_items;
  max_depth = l.max_json_depth;
  exhausted = false;
}

-- `deserializer.end()`: no bytes behind the document.
abbrev pub at_end : {A : Type 0} → Bool → Option A → Option A
at_end true o = o
at_end false o = none

abbrev pub parsed : Budget → Option Value → Result ObservationError Value
parsed b (some v) = ok v
parsed b none = if b.exhausted then err resource_limit else err malformed

-- `serde_json::Deserializer::from_slice` is a parameter: the document, and whether the input ends
-- behind it.
abbrev pub FromSlice : Type 0
FromSlice = Bytes → Document × Bool

unfoldable pub parse_bounded : FromSlice → Bytes → ObservationLimits → Result ObservationError Value
parse_bounded from_slice bytes limits =
    let (document, ended) = from_slice bytes in
    let (b, v) = visit document 0 (budget_of limits) in parsed b (at_end ended v)
