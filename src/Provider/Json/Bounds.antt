-- ===== src/Provider/Json/Bounds.antt =====
-- The values that `parse_bounded` builds are within the budget, and no object has a key twice.
use tracepress.Base.{
  ℕ, ◌+◌, ◌≤◌, ◌<◌, ◌≡◌, refl, sym, subst, Bool, true, false, Option, none, some, arith, Bytes,
  u64_max, ok,
}
use tracepress.Provider.Domain.{ObservationLimits}
use tracepress.Provider.Json.{
  Value, boolean, number, string, Values, item, Members, end_object, Document, unit, sequence,
  entries, broken, Elements, end_sequence, broken_sequence, element, Entries, end_entries,
  broken_entries, entry, Budget, add_item, enter, is_known, insert, visit, visit_seq, visit_map,
  fail_if_known, budget_of, parsed, at_end, FromSlice, parse_bounded,
}
use tracepress.Provider.Json.Shape.{
  count, count_values, count_members, nesting, nesting_values, nesting_members, HasDistinctKeys,
  ItemsDistinct, MembersDistinct, insert-MembersDistinct, count-insert, nesting-insert,
}
use tracepress.Provider.Json.Charges.{
  Ready, Charges, and_then-some, add_item-Charges, enter-Ready, Charges-deeper, returned,
  Charges-Ready,
}

abbrev Visited : Budget → ℕ → Budget → Value → Type 0
Visited b depth c v = Charges b c depth (count v) (nesting v) × HasDistinctKeys v

abbrev SeqVisited : Budget → ℕ → Budget → Values → Type 0
SeqVisited b depth c vs = Charges b c depth (count_values vs) (nesting_values vs) × ItemsDistinct vs

-- What is charged for the members that come on top of those of `built`.
abbrev MapVisited : Budget → ℕ → Members → Budget → Members → Type 0
MapVisited b depth built c out =
    (c.max_items ≡ b.max_items)
    × (c.max_depth ≡ b.max_depth)
    × (c.items + count_members built ≡ b.items + count_members out)
    × (c.items ≤ b.max_items)
    × (depth + nesting_members out ≤ b.max_depth)
    × MembersDistinct out

Charges-nothing : (b : Budget) (depth : ℕ) → Ready b depth → Charges b b depth 0 0
Charges-nothing b depth ready = ground arith

element-SeqVisited :
    (b b1 b2 b3 : Budget) (depth : ℕ) (v : Value) (vs : Values)
    → Visited b depth b1 v
    → Charges b1 b2 depth 1 0
    → SeqVisited b2 depth b3 vs
    → SeqVisited b depth b3 (item v vs)
unfolding count_values nesting_values ItemsDistinct
element-SeqVisited b b1 b2 b3 depth v vs (c1, hv) c2 (c3, hvs) = (ground arith, (hv, hvs))

fail_if_known_passes :
    (known : Bool) (b b' : Budget) {u : Unit {0}}
    → fail_if_known known b ≡ (b', some u)
    → (known ≡ false) × (b ≡ b')
fail_if_known_passes true b b' e = absurd cc
fail_if_known_passes false b b' e = (refl, cc)

nested_insert :
    (b b1 b2 : Budget) (depth : ℕ) (built : Members) (key : Bytes) (v : Value)
    → depth + nesting_members built ≤ b.max_depth
    → Charges b b1 depth 1 0
    → Charges b1 b2 depth (count v) (nesting v)
    → depth + nesting_members (insert built key v) ≤ b2.max_depth
nested_insert b b1 b2 depth built key v nested c1 c2 = ground (arith, nesting-insert built key v)

entry-MapVisited :
    (b b1 b2 b' : Budget) (depth : ℕ) (built : Members) (key : Bytes) (v : Value) (out : Members)
    → Charges b b1 depth 1 0
    → Charges b1 b2 depth (count v) (nesting v)
    → MapVisited b2 depth (insert built key v) b' out
    → MapVisited b depth built b' out
entry-MapVisited b b1 b2 b' depth built key v out c1 c2
      (items, depths, counted, fits, nested, distinct) =
    (
      omega arith,
      omega arith,
      omega (arith, count-insert built key v),
      omega arith,
      omega arith,
      distinct,
    )

mutual
  unfolding visit visit_seq visit_map HasDistinctKeys ItemsDistinct MembersDistinct count
      count_values count_members nesting nesting_values nesting_members

  visit-Visited :
      (d : Document) (b b' : Budget) (depth : ℕ) (v : Value)
      → Ready b depth
      → visit d depth b ≡ (b', some v)
      → Visited b depth b' v
  visit-Visited unit b b' depth v ready e =
      returned (Visited b depth) e (Charges-nothing b depth ready, tt)
  visit-Visited (boolean x) b b' depth v ready e =
      returned (Visited b depth) e (Charges-nothing b depth ready, tt)
  visit-Visited (number (some n)) b b' depth v ready e =
      returned (Visited b depth) e (Charges-nothing b depth ready, tt)
  visit-Visited (number none) b b' depth v ready e = absurd cc
  visit-Visited (string s) b b' depth v ready e =
      returned (Visited b depth) e (Charges-nothing b depth ready, tt)
  visit-Visited broken b b' depth v ready e = absurd cc
  visit-Visited (sequence es) b b' depth v ready e =
      let (b1, next, e1, e2) = and_then-some (enter depth b) _ e in
      let (ready1, entered, deeper) = enter-Ready b b1 depth next ready e1 in
      let (b2, vs, e3, e4) = and_then-some (visit_seq es next b1) _ e2 in
      let (inside, distinct) = visit_seq-SeqVisited es b1 b2 next vs ready1 e3 in
      returned (Visited b depth) e4 (
        Charges-deeper b b1 b2 depth next (count_values vs) (nesting_values vs) entered deeper
            inside,
        distinct,
      )
  visit-Visited (entries es) b b' depth v ready e =
      let (b1, next, e1, e2) = and_then-some (enter depth b) _ e in
      let (ready1, entered, deeper) = enter-Ready b b1 depth next ready e1 in
      let (b2, ms, e3, e4) = and_then-some (visit_map es next end_object b1) _ e2 in
      let (items, depths, counted, fits, nested, distinct) =
        visit_map-MapVisited es b1 b2 next end_object ms ready1 (omega arith) tt e3 in
      returned (Visited b depth) e4 (
        Charges-deeper b b1 b2 depth next (count_members ms) (nesting_members ms) entered deeper
            (items, depths, omega arith, fits, nested),
        distinct,
      )

  visit_seq-SeqVisited :
      (es : Elements) (b b' : Budget) (depth : ℕ) (vs : Values)
      → Ready b depth
      → visit_seq es depth b ≡ (b', some vs)
      → SeqVisited b depth b' vs
  visit_seq-SeqVisited end_sequence b b' depth vs ready e =
      returned (SeqVisited b depth) e (Charges-nothing b depth ready, tt)
  visit_seq-SeqVisited broken_sequence b b' depth vs ready e = absurd cc
  visit_seq-SeqVisited (element d rest) b b' depth vs ready e =
      let (b1, v, e1, e2) = and_then-some (visit d depth b) _ e in
      let (b2, u, e3, e4) = and_then-some (add_item b1) _ e2 in
      let (b3, ws, e5, e6) = and_then-some (visit_seq rest depth b2) _ e4 in
      let (c1, distinct) = visit-Visited d b b1 depth v ready e1 in
      let ready1 = Charges-Ready b b1 depth (count v) (nesting v) ready c1 in
      let c2 = add_item-Charges b1 b2 depth ready1 e3 in
      let ready2 = Charges-Ready b1 b2 depth 1 0 ready1 c2 in
      returned (SeqVisited b depth) e6 (
        element-SeqVisited b b1 b2 b3 depth v ws (c1, distinct) c2
          (visit_seq-SeqVisited rest b2 b3 depth ws ready2 e5))

  visit_map-MapVisited :
      (es : Entries) (b b' : Budget) (depth : ℕ) (built out : Members)
      → Ready b depth
      → depth + nesting_members built ≤ b.max_depth
      → MembersDistinct built
      → visit_map es depth built b ≡ (b', some out)
      → MapVisited b depth built b' out
  visit_map-MapVisited end_entries b b' depth built out ready nested distinct e =
      returned (MapVisited b depth built) e (refl, refl, refl, ready.0, nested, distinct)
  visit_map-MapVisited broken_entries b b' depth built out ready nested distinct e = absurd cc
  visit_map-MapVisited (entry key d rest) b b' depth built out ready nested distinct e =
      let (b1, u, e1, e2) = and_then-some (add_item b) _ e in
      let (b2, v, e3, e4) = and_then-some (visit d depth b1) _ e2 in
      let (b3, w, e5, e6) = and_then-some (fail_if_known (is_known built key) b2) _ e4 in
      let c1 = add_item-Charges b b1 depth ready e1 in
      let ready1 = Charges-Ready b b1 depth 1 0 ready c1 in
      let (c2, hv) = visit-Visited d b1 b2 depth v ready1 e3 in
      let ready2 = Charges-Ready b1 b2 depth (count v) (nesting v) ready1 c2 in
      let (fresh, same) = fail_if_known_passes (is_known built key) b2 b3 e5 in
      let e7 =
        subst (λ c. visit_map rest depth (insert built key v) c ≡ (b', some out)) (sym same) e6 in
      entry-MapVisited b b1 b2 b' depth built key v out c1 c2 (
        visit_map-MapVisited rest b2 b' depth (insert built key v) out ready2
          (nested_insert b b1 b2 depth built key v nested c1 c2)
          (insert-MembersDistinct built key v fresh hv distinct) e7)

parsed-ok :
    (r : Budget × Option Value) (ended : Bool) {v : Value}
    → parsed r.0 (at_end ended r.1) ≡ ok v
    → (b : Budget) × (r ≡ (b, some v))
parsed-ok (b, some w) true e = (b, cc)
parsed-ok (b, some w) false e = ground arith
parsed-ok (b, none) true e = ground arith
parsed-ok (b, none) false e = ground arith

parse_bounded_parsed :
    (from_slice : FromSlice) (bytes : Bytes) (l : ObservationLimits) (v : Value)
    → parse_bounded from_slice bytes l ≡ ok v
    → (b : Budget) × (visit (from_slice bytes).0 0 (budget_of l) ≡ (b, some v))
unfolding parse_bounded
parse_bounded_parsed from_slice bytes l v e =
    parsed-ok (visit (from_slice bytes).0 0 (budget_of l)) (from_slice bytes).1 e

-- For every reading of serde_json, limits below the largest `usize` and every value that
-- `parse_bounded` answers with: its arrays and objects hold at most `max_json_items` elements and
-- members in total, at all levels, they are nested at most `max_json_depth` deep, and no object at
-- any level has a key twice.
pub parse_bounded-IsBounded :
    (from_slice : FromSlice) (bytes : Bytes) (l : ObservationLimits) (v : Value)
    → l.max_json_items < u64_max
    → l.max_json_depth < u64_max
    → parse_bounded from_slice bytes l ≡ ok v
    → (count v ≤ l.max_json_items) × (nesting v ≤ l.max_json_depth) × HasDistinctKeys v
parse_bounded-IsBounded from_slice bytes l v items depth e =
    let (b, visited) = parse_bounded_parsed from_slice bytes l v e in
    let ((_, _, charged, fits, nested), distinct) =
      visit-Visited (from_slice bytes).0 (budget_of l) b 0 v
        (omega arith, omega arith, items, depth) visited in
    (omega arith, omega arith, distinct)
