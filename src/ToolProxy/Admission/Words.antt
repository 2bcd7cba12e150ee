-- ===== src/ToolProxy/Admission/Words.antt =====
-- What the two scans of `decide` find: the shell characters, and the words between white space.
use tracepress.Base.{
  ℕ, ◌<◌, ◌≡◌, refl, sym, ap, ◌∙◌, subst, ◌≢◌, ◌↔◌, inl, inr, Bool, false, ◌||◌, List, [], ◌∷◌,
  ◌++◌, append_assoc, append-nil, arith, Bytes, Bool-cases, is_member, is_ascii_whitespace, IsWhite,
  is_ascii_whitespace_iff, length, All, All-append,
}
use tracepress.ToolProxy.Admission.{
  contains_any, shell_characters, split_from, split_ascii_whitespace, add_word,
}

-- The byte is none of those by which a shell composes, quotes or expands.
abbrev pub IsPlain : ℕ → Type 0
IsPlain b =
    All (λ s. b ≢ s)
      (b'|' ∷ b'>' ∷ b'<' ∷ b';' ∷ b'&' ∷ b'$' ∷ b'`' ∷ b'(' ∷ b')' ∷ 10 ∷ 13 ∷ 39 ∷ 34 ∷ 92 ∷ b'*'
        ∷ b'?' ∷ b'[' ∷ b']' ∷ b'{' ∷ b'}' ∷ b'~' ∷ b'!' ∷ [])

-- A word ends here: the text does, or white space follows.
abbrev pub EndsWord : Bytes → Type 0
EndsWord [] = Unit {0}
EndsWord (b ∷ _) = IsWhite b

-- The text is these words, none empty and none with white space in it, with white space between
-- them, and with any white space before and behind.
abbrev pub IsSplit : Bytes → List Bytes → Type 0
IsSplit text [] = All IsWhite text
IsSplit text (word ∷ words) =
    (before rest : Bytes) × (text ≡ before ++ (word ++ rest))
    × All IsWhite before
    × (0 < length word)
    × All (λ b. ¬ IsWhite b) word
    × EndsWord rest
    × IsSplit rest words

is_member_iff : (b : ℕ) (xs : Bytes) → (is_member b xs ≡ false) ↔ All (λ s. b ≢ s) xs
is_member_iff b [] = (λ _. tt, λ _. refl)
is_member_iff b (x ∷ xs) = (
  λ e. (ground arith, (is_member_iff b xs).0 (ground arith)),
  λ (ne, all). let rest = (is_member_iff b xs).1 all in ground arith,
)

or_false_iff : (x y : Bool) → ((x || y) ≡ false) ↔ ((x ≡ false) × (y ≡ false))
or_false_iff x y = ground arith

contains_none_iff :
    (wanted bytes : Bytes)
    → (contains_any wanted bytes ≡ false) ↔ All (λ b. All (λ s. b ≢ s) wanted) bytes
contains_none_iff wanted [] = (λ _. tt, λ _. refl)
contains_none_iff wanted (b ∷ bs) =
    let split = or_false_iff (is_member b wanted) (contains_any wanted bs) in
    (
      λ e.
          let (here, later) = split.0 e in
          ((is_member_iff b wanted).0 here, (contains_none_iff wanted bs).0 later),
      λ (here, later).
          split.1 ((is_member_iff b wanted).1 here, (contains_none_iff wanted bs).1 later),
    )

pub contains_any_iff :
    (bytes : Bytes) → (contains_any shell_characters bytes ≡ false) ↔ All IsPlain bytes
contains_any_iff bytes = contains_none_iff shell_characters bytes

ink : (b : ℕ) → ¬ IsWhite b → is_ascii_whitespace b ≡ false
ink b dark = elim (Bool-cases (is_ascii_whitespace b)) [
  | inl white ↦ absurd (dark ((is_ascii_whitespace_iff b).0 white))
  | inr white ↦ white
]

not-IsWhite : (b : ℕ) → is_ascii_whitespace b ≡ false → ¬ IsWhite b
not-IsWhite b dark w = let h = (is_ascii_whitespace_iff b).1 w in cc

-- White space before the words is passed over.
split_from-white :
    (before rest : Bytes) → All IsWhite before → split_from [] (before ++ rest) ≡ split_from [] rest
unfolding split_from
split_from-white [] rest w = refl
split_from-white (b ∷ before) rest (w, ws) =
    rw ((is_ascii_whitespace_iff b).1 w) (split_from-white before rest ws)

-- A word is collected.
split_from-word :
    (got word rest : Bytes)
    → All (λ b. ¬ IsWhite b) word
    → split_from got (word ++ rest) ≡ split_from (got ++ word) rest
unfolding split_from
split_from-word got [] rest w = rw append-nil refl
split_from-word got (b ∷ word) rest (w, ws) = rw (ink b w) (
    split_from-word (got ++ b ∷ []) word rest ws
    ∙ ap (λ g. split_from g rest) (append_assoc got (b ∷ []) word))

-- Where a word ends, it is put out.
split_from-end :
    (word rest : Bytes)
    → 0 < length word
    → EndsWord rest
    → split_from word rest ≡ word ∷ split_from [] rest
unfolding split_from
split_from-end (c ∷ word) [] filled ends = refl
split_from-end (c ∷ word) (b ∷ rest) filled ends = rw ((is_ascii_whitespace_iff b).1 ends) refl
split_from-end [] rest filled ends = absurd (omega arith)

IsSplit-split_from :
    (text : Bytes) (words : List Bytes) → IsSplit text words → split_from [] text ≡ words
IsSplit-split_from text [] w =
    ap (split_from []) (sym (append-nil text))
    ∙ split_from-white text [] w
    ∙ (unfold split_from in refl)
IsSplit-split_from text (word ∷ words) (before, rest, e, white, filled, inks, ends, later) = rw e (
    split_from-white before (word ++ rest) white
    ∙ split_from-word [] word rest inks
    ∙ split_from-end word rest filled ends
    ∙ ap (◌∷◌ word) (IsSplit-split_from rest words later))

IsSplit-white :
    (b : ℕ) (text : Bytes) (words : List Bytes)
    → IsWhite b
    → IsSplit text words
    → IsSplit (b ∷ text) words
IsSplit-white b text [] w s = (w, s)
IsSplit-white b text (word ∷ words) w (before, rest, e, white, filled, inks, ends, later) =
    (b ∷ before, rest, ap (◌∷◌ b) e, (w, white), filled, inks, ends, later)

-- The word that was read, if there is one, before white space.
add_word-IsSplit :
    (got : Bytes) (b : ℕ) (bs : Bytes) (words : List Bytes)
    → All (λ c. ¬ IsWhite c) got
    → IsWhite b
    → IsSplit (b ∷ bs) words
    → IsSplit (got ++ (b ∷ bs)) (add_word got words)
add_word-IsSplit [] b bs words w blank s = s
add_word-IsSplit (c ∷ got) b bs words w blank s = ([], b ∷ bs, refl, tt, omega arith, w, blank, s)

-- With a word begun, or none.
split_from-IsSplit :
    (got text : Bytes) → All (λ b. ¬ IsWhite b) got → IsSplit (got ++ text) (split_from got text)
unfolding split_from
split_from-IsSplit [] [] w = tt
split_from-IsSplit (c ∷ got) [] w = ([], [], refl, tt, omega arith, w, tt, tt)
split_from-IsSplit got (b ∷ bs) w = elim (Bool-cases (is_ascii_whitespace b)) [
  | inl white ↦
      let blank = (is_ascii_whitespace_iff b).0 white in
      rw white (
        add_word-IsSplit got b bs (split_from [] bs) w blank
          (IsSplit-white b bs (split_from [] bs) blank (split_from-IsSplit [] bs tt)))
  | inr white ↦ rw white (
      subst (λ t. IsSplit t (split_from (got ++ b ∷ []) bs)) (append_assoc got (b ∷ []) bs)
        (split_from-IsSplit (got ++ b ∷ []) bs
          (All-append (λ c. ¬ IsWhite c) got (b ∷ []) w (not-IsWhite b white, tt))))
]

-- The words that are split off are the words of the text, and no others are.
pub split_ascii_whitespace_iff :
    (text : Bytes) (words : List Bytes) → (split_ascii_whitespace text ≡ words) ↔ IsSplit text words
unfolding split_ascii_whitespace
split_ascii_whitespace_iff text words =
    (λ e. subst (IsSplit text) e (split_from-IsSplit [] text tt), IsSplit-split_from text words)
