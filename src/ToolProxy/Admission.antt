-- ===== src/ToolProxy/Admission.antt =====
-- crates/tracepress-tool-proxy/src/admission.rs: the allowlist parser, on the bytes of a command.
pub mod Words
pub mod Laws
use tracepress.Base.{
  Bool, false, ◌&&◌, ◌||◌, List, [], ◌∷◌, ◌++◌, Bytes, ◌==◌, if◌then◌else◌, eq_bytes, is_member,
  is_ascii_whitespace, length,
}
use tracepress.Base.Ascii.{ascii}
use tracepress.ToolProxy.Model.{
  agent_readable, CommandFamily, RewriteDecision, passthrough, fail_open, unsupported, shell_syntax,
  cargo_test, cargo_check, cargo_clippy, ripgrep, git_status,
}

-- The characters that `decide` looks for. All are ASCII, so looking for them in the bytes of a text
-- is looking for them in its characters.
abbrev pub shell_characters : Bytes
shell_characters = ascii "|><;&$`()" ++ (0x0a ∷ 0x0d ∷ 0x27 ∷ 0x22 ∷ 0x5c ∷ ascii "*?[]{}~!")

-- `command.contains([..])`.
abbrev pub contains_any : Bytes → Bytes → Bool
contains_any wanted [] = false
contains_any wanted (b ∷ bs) = is_member b wanted || contains_any wanted bs

abbrev pub add_word : Bytes → List Bytes → List Bytes
add_word [] words = words
add_word (c ∷ word) words = (c ∷ word) ∷ words

-- `split_ascii_whitespace`, with the word read so far: the words that are not empty.
unfoldable pub split_from : Bytes → Bytes → List Bytes
split_from word [] = add_word word []
split_from word (b ∷ bs) =
    if is_ascii_whitespace b
    then add_word word (split_from [] bs)
    else split_from (word ++ b ∷ []) bs

unfoldable pub split_ascii_whitespace : Bytes → List Bytes
unfolding split_from
split_ascii_whitespace = split_from []

abbrev admitted : CommandFamily → RewriteDecision
admitted family = passthrough family agent_readable

abbrev refused : RewriteDecision
refused = fail_open unsupported

-- The `match` on the words, arm by arm.
abbrev pub decide_cargo : Bytes → RewriteDecision
decide_cargo second =
    if eq_bytes second (ascii "test")
    then admitted cargo_test
    else if eq_bytes second (ascii "check")
    then admitted cargo_check
    else if eq_bytes second (ascii "clippy")
    then admitted cargo_clippy
    else refused

abbrev pub decide_words : List Bytes → RewriteDecision
decide_words [] = refused
decide_words (first ∷ []) = if eq_bytes first (ascii "rg") then admitted ripgrep else refused
decide_words (first ∷ second ∷ rest) =
    if eq_bytes first (ascii "cargo")
    then decide_cargo second
    else if eq_bytes first (ascii "rg")
    then admitted ripgrep
    else if eq_bytes first (ascii "git") && (eq_bytes second (ascii "status") && (length rest == 0))
    then admitted git_status
    else refused

unfoldable pub decide : Bytes → RewriteDecision
unfolding split_ascii_whitespace
decide command =
    if contains_any shell_characters command
    then fail_open shell_syntax
    else decide_words (split_ascii_whitespace command)
