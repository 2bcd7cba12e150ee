-- ===== src/Context/Counts.antt =====
-- crates/tracepress-context/src/delta.rs: counters, token totals and the hash maps of counts.
use tracepress.Base.{
  ℕ, ◌-◌, Bool, true, false, ◌&&◌, Option, none, some, ◌==◌, if◌then◌else◌, saturating_add,
}
use tracepress.Context.Types.{ContextBlockSummary}

abbrev pub increment : ℕ → ℕ
increment value = saturating_add value 1

pub record TokenTotal : Type 0 where
  pub total : ℕ
  pub unknown : Bool

abbrev pub no_tokens : TokenTotal
no_tokens = record { total = 0; unknown = false }

abbrev pub push : TokenTotal → Option ℕ → TokenTotal
push t (some tokens) = record t { total = saturating_add t.total tokens }
push t none = record t { unknown = true }

abbrev pub finish : TokenTotal → Option ℕ
finish t = if t.unknown then none else some t.total

-- A `HashMap` of counts. `take_one` and `or_default` treat a missing key as a count of 0.
abbrev pub CountsOf : Type 0 → Type 0
CountsOf Key = Key → ℕ

abbrev pub no_counts : {Key : Type 0} → CountsOf Key
no_counts k = 0

-- `increment(counts.entry(key).or_default())`, for a given equality of keys.
abbrev pub increment_entry : {Key : Type 0} → (Key → Key → Bool) → CountsOf Key → Key → CountsOf Key
increment_entry eq counts key k = if eq k key then increment (counts k) else counts k

abbrev pub remove_one : {Key : Type 0} → (Key → Key → Bool) → CountsOf Key → Key → CountsOf Key
remove_one eq counts key k = if eq k key then counts k - 1 else counts k

-- `take_one`: whether there was one, and the counts that are left.
abbrev pub take_one : {Key : Type 0} → (Key → Key → Bool) → CountsOf Key → Key → Bool × CountsOf Key
take_one eq counts key =
    if counts key == 0 then (false, counts) else (true, remove_one eq counts key)

-- A block by its exact and its semantic identity.
abbrev pub Identity : Type 0
Identity = ℕ × Option ℕ

abbrev pub eq_option : Option ℕ → Option ℕ → Bool
eq_option none none = true
eq_option (some a) (some b) = a == b
eq_option _ _ = false

abbrev pub eq_identity : Identity → Identity → Bool
eq_identity (d, s) (d', s') = d == d' && eq_option s s'

abbrev pub identity : ContextBlockSummary → Identity
identity b = (b.exact_fingerprint, b.semantic_fingerprint)
