-- ===== src/Context/Delta/Represents.antt =====
-- A hash map of counts stands for a multiset, here a list up to order.
use tracepress.Base.{
  ℕ, suc, ◌-◌, ◌≤◌, ◌<◌, ◌≡◌, refl, ap, ◌↔◌, inl, inr, Bool, true, false, none, some, List, [], ◌∷◌,
  arith, ◌==◌, if◌then◌else◌, ==_iff, Bool-cases, IsU64, length,
}
use tracepress.Context.Counts.{CountsOf, increment_entry, remove_one, eq_identity}

-- The equality of keys decides.
abbrev pub Decides : {Key : Type 0} → (Key → Key → Bool) → Type 0
Decides {Key} eq = (a b : Key) → (eq a b ≡ true) ↔ (a ≡ b)

pub ==-Decides : Decides ◌==◌
==-Decides = ==_iff

pub eq_identity-Decides : Decides eq_identity
eq_identity-Decides (d, none) (d', none) = ground (arith, ==_iff d d')
eq_identity-Decides (d, none) (d', some s') = ground (arith, ==_iff d d')
eq_identity-Decides (d, some s) (d', none) = ground (arith, ==_iff d d')
eq_identity-Decides (d, some s) (d', some s') = ground (arith, ==_iff d d', ==_iff s s')

module _ {Key : Type 0} (eq : Key → Key → Bool) where
  abbrev pub count : Key → List Key → ℕ
  count k [] = 0
  count k (x ∷ xs) = if eq k x then suc (count k xs) else count k xs

  abbrev pub Represents : CountsOf Key → List Key → Type 0
  Represents counts xs = (k : Key) → counts k ≡ count k xs

  abbrev pub remove : Key → List Key → List Key
  remove k [] = []
  remove k (x ∷ xs) = if eq k x then xs else x ∷ remove k xs

  pub count-le : (k : Key) (xs : List Key) → count k xs ≤ length xs
  count-le k [] = omega arith
  count-le k (x ∷ xs) = ground (arith, count-le k xs)

  pub Represents-increment_entry :
      (counts : CountsOf Key) (xs : List Key) (key : Key)
      → Represents counts xs
      → IsU64 (suc (length xs))
      → Represents (increment_entry eq counts key) (key ∷ xs)
  Represents-increment_entry counts xs key h small k = ground (arith, h k, count-le k xs)

  pub length-remove :
      (k : Key) (xs : List Key) → 0 < count k xs → suc (length (remove k xs)) ≡ length xs
  length-remove k [] h = absurd (omega arith)
  length-remove k (x ∷ xs) h = elim (Bool-cases (eq k x)) [
    | inl same ↦ rw same
    | inr other ↦ rw other (ap suc (length-remove k xs (rw other at h)))
  ]

  pub count-remove :
      Decides eq
      → (j k : Key) (xs : List Key) → 0 < count k xs
      → count j (remove k xs) ≡ (if eq j k then count j xs - 1 else count j xs)
  count-remove d j k [] h = absurd (omega arith)
  count-remove d j k (x ∷ xs) h = elim (Bool-cases (eq k x)) [
    | inl same ↦
        rw (same, (d k x).0 same)
          (elim (Bool-cases (eq j x)) [
            | inl here ↦ rw here (omega arith)
            | inr away ↦ rw away refl
          ])
    | inr other ↦ elim (Bool-cases (eq j k)) [
      | inl here ↦
          let ih = rw here at (count-remove d j k xs (rw other at h)) in
          let e : eq j x ≡ false = rw ((d j k).0 here) other in rw (other, here, e) ih
      | inr away ↦
          let ih = rw away at (count-remove d j k xs (rw other at h)) in
          rw (other, away)
            (elim (Bool-cases (eq j x)) [ inl hit ↦ rw hit (ap suc ih) | inr miss ↦ rw miss ih ])
    ]
  ]

  -- A key that is there is taken, and the counts then stand for the list without one of it.
  pub Represents-remove_one :
      Decides eq
      → (counts : CountsOf Key) (xs : List Key) (key : Key) → Represents counts xs
      → 0 < count key xs
      → Represents (remove_one eq counts key) (remove key xs)
  Represents-remove_one d counts xs key h there k = rw (count-remove d k key xs there, h k) refl

  -- Only the empty list has none of every key.
  pub count_none : Decides eq → (xs : List Key) → ((k : Key) → count k xs ≡ 0) → length xs ≡ 0
  count_none d [] h = refl
  count_none d (x ∷ xs) h = absurd (let e = rw ((d x x).1 refl) at (h x) in omega arith)
