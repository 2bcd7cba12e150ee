-- ===== src/ToolProxy/Admission/Laws.antt =====
-- Only a standalone command of the allowlist is admitted.
use tracepress.Base.{
  ◌≡◌, refl, sym, ap, ◌∙◌, ◌↔◌, inl, inr, true, ◌&&◌, List, [], ◌∷◌, arith, Bytes, ◌==◌, Bool-cases,
  eq_bytes, eq_bytes_iff, length, All,
}
use tracepress.Base.Ascii.{ascii}
use tracepress.ToolProxy.Model.{
  OutputContract, agent_readable, CommandFamily, RewriteDecision, passthrough, fail_open,
  unsupported, cargo_test, cargo_check, cargo_clippy, ripgrep, git_status,
}
use tracepress.ToolProxy.Admission.{
  decide, decide_words, decide_cargo, contains_any, shell_characters, split_ascii_whitespace,
}
use tracepress.ToolProxy.Admission.Words.{
  IsPlain, IsSplit, contains_any_iff, split_ascii_whitespace_iff,
}

-- The words name a command of this family.
abbrev pub Names : CommandFamily → List Bytes → Type 0
Names cargo_test words = (rest : List Bytes) × (words ≡ ascii "cargo" ∷ ascii "test" ∷ rest)
Names cargo_check words = (rest : List Bytes) × (words ≡ ascii "cargo" ∷ ascii "check" ∷ rest)
Names cargo_clippy words = (rest : List Bytes) × (words ≡ ascii "cargo" ∷ ascii "clippy" ∷ rest)
Names ripgrep words = (rest : List Bytes) × (words ≡ ascii "rg" ∷ rest)
Names git_status words = words ≡ ascii "git" ∷ ascii "status" ∷ []

-- What a decision on some words says.
abbrev Sound : List Bytes → RewriteDecision → Type 0
Sound words (passthrough family contract) = (contract ≡ agent_readable) × Names family words
Sound words (fail_open reason) = reason ≡ unsupported

decide_cargo-Sound :
    (second : Bytes) (rest : List Bytes)
    → Sound (ascii "cargo" ∷ second ∷ rest) (decide_cargo second)
decide_cargo-Sound second rest = elim (Bool-cases (eq_bytes second (ascii "test"))) [
  | inl t ↦ rw t (refl, (rest, rw ((eq_bytes_iff second _).0 t)))
  | inr t ↦ elim (Bool-cases (eq_bytes second (ascii "check"))) [
    | inl k ↦ rw (t, k) (refl, (rest, rw ((eq_bytes_iff second _).0 k)))
    | inr k ↦ elim (Bool-cases (eq_bytes second (ascii "clippy"))) [
      | inl p ↦ rw (t, k, p) (refl, (rest, rw ((eq_bytes_iff second _).0 p)))
      | inr p ↦ rw (t, k, p) refl
    ]
  ]
]

git_words :
    (first second : Bytes) (rest : List Bytes)
    → (eq_bytes first (ascii "git") && (eq_bytes second (ascii "status") && (length rest == 0)))
      ≡ true
    → first ∷ second ∷ rest ≡ ascii "git" ∷ ascii "status" ∷ []
git_words first second [] e = rw (
  (eq_bytes_iff first (ascii "git")).0 (ground arith),
  (eq_bytes_iff second (ascii "status")).0 (ground arith),
)
git_words first second (word ∷ rest) e = absurd (ground arith)

decide_words-Sound : (words : List Bytes) → Sound words (decide_words words)
decide_words-Sound [] = refl
decide_words-Sound (first ∷ []) = elim (Bool-cases (eq_bytes first (ascii "rg"))) [
  | inl r ↦ rw r (refl, ([], rw ((eq_bytes_iff first _).0 r)))
  | inr r ↦ rw r refl
]
decide_words-Sound (first ∷ second ∷ rest) = elim (Bool-cases (eq_bytes first (ascii "cargo"))) [
  | inl c ↦ rw c (rw ((eq_bytes_iff first _).0 c) (decide_cargo-Sound second rest))
  | inr c ↦ elim (Bool-cases (eq_bytes first (ascii "rg"))) [
    | inl r ↦ rw (c, r) (refl, (second ∷ rest, rw ((eq_bytes_iff first _).0 r)))
    | inr r ↦
        elim (Bool-cases (
          eq_bytes first (ascii "git")
          && (eq_bytes second (ascii "status") && (length rest == 0)))) [
            | inl g ↦ rw (c, r, g) (refl, git_words first second rest g)
            | inr g ↦ rw (c, r, g) refl
          ]
  ]
]

decide_words_complete :
    (family : CommandFamily) (words : List Bytes)
    → Names family words
    → decide_words words ≡ passthrough family agent_readable
unfolding eq_bytes
decide_words_complete cargo_test words (rest, e) = rw e
decide_words_complete cargo_check words (rest, e) = rw e
decide_words_complete cargo_clippy words (rest, e) = rw e
decide_words_complete ripgrep words ([], e) = rw e
decide_words_complete ripgrep words (second ∷ rest, e) = rw e
decide_words_complete git_status words e = rw e

-- A command is passed through under a family, with a contract, exactly when the contract is the
-- readable one, no byte of the command is one of the 22 listed shell characters, and the text splits
-- at ASCII white space into words that name the family: `cargo test`, `cargo check`, `cargo clippy`
-- or `rg` with any words behind, or `git status` alone.
pub decide_iff :
    (command : Bytes) (family : CommandFamily) (contract : OutputContract)
    → (decide command ≡ passthrough family contract) ↔ (
        (contract ≡ agent_readable)
        × All IsPlain command
        × ((words : List Bytes) × IsSplit command words × Names family words))
unfolding decide
decide_iff command family contract =
    let words = split_ascii_whitespace command in
    elim (Bool-cases (contains_any shell_characters command)) [
      | inl shell ↦
          rw shell (λ e. cc, λ (a, b, n). let none_there = (contains_any_iff command).1 b in cc)
      | inr plain ↦ rw plain (
        λ e.
            let (a, n) = rw e at (decide_words-Sound words) in
            (
              a,
              (contains_any_iff command).0 plain,
              (words, (split_ascii_whitespace_iff command words).0 refl, n),
            ),
        λ (a, b, (found, split, n)).
            rw ((split_ascii_whitespace_iff command found).1 split)
              (decide_words_complete family found n ∙ ap (passthrough family) (sym a)),
      )
    ]
