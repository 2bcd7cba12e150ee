-- ===== src/Ipc/Frame/Split.antt =====
-- Two ways to cut the same list.
use tracepress.Base.{
  ℕ, ◌≤◌, ◌≡◌, refl, List, [], ◌∷◌, ◌++◌, arith, length, take, drop, take-length_append,
  drop-length_append,
}

module _ {ℓ} {A : Type ℓ} where
  pub append_split :
      (xs bs cs ds : List A)
      → xs ++ bs ≡ cs ++ ds
      → length xs ≤ length cs
      → (es : List A) × (cs ≡ xs ++ es) × (bs ≡ es ++ ds)
  append_split [] bs cs ds e h = (cs, refl, e)
  append_split (a ∷ xs) bs [] ds e h = absurd (omega arith)
  append_split (a ∷ xs) bs (c ∷ cs) ds e h =
      let tails : xs ++ bs ≡ cs ++ ds = cc in
      let heads : a ≡ c = cc in
      let (es, p, q) = append_split xs bs cs ds tails (omega arith) in (es, cc, q)

  -- A cut at a length.
  pub take_cut :
      (n : ℕ) (whole front back : List A)
      → n ≡ length front
      → whole ≡ front ++ back
      → take n whole ≡ front
  take_cut n whole front back size cut = rw (size, cut) (take-length_append front back)

  pub drop_cut :
      (n : ℕ) (whole front back : List A)
      → n ≡ length front
      → whole ≡ front ++ back
      → drop n whole ≡ back
  drop_cut n whole front back size cut = rw (size, cut) (drop-length_append front back)
