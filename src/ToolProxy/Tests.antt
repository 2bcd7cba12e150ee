-- ===== src/ToolProxy/Tests.antt =====
-- Runs of crates/tracepress-tool-proxy on small inputs.
use tracepress.Base.{◌≡◌, refl, ◌↔◌, ◌⊎◌, true, List, Bytes, eq_bytes, All}
use tracepress.Base.Ascii.{ascii}
use tracepress.ToolProxy.Model.{
  unsupported, agent_readable, passthrough, fail_open, shell_syntax, cargo_test, cargo_check,
  ripgrep,
}
use tracepress.ToolProxy.Admission.{decide, split_ascii_whitespace, split_from}
use tracepress.ToolProxy.Admission.Words.{IsPlain, IsSplit}
use tracepress.ToolProxy.Admission.Laws.{Names, decide_iff}
use tracepress.ToolProxy.Policy.{active_source_policy_allowed}
use tracepress.ToolProxy.Policy.Laws.{active_source_policy_allowed_iff}

abbrev command : Bytes
command = ascii "cargo test -q"

decide-command : decide command ≡ passthrough cargo_test agent_readable
unfolding decide split_ascii_whitespace split_from eq_bytes
decide-command = refl

decide-pipe : decide (ascii "cargo test | tail") ≡ fail_open shell_syntax
unfolding decide
decide-pipe = refl

decide-short_status : decide (ascii "git status --short") ≡ fail_open unsupported
unfolding decide split_ascii_whitespace split_from eq_bytes
decide-short_status = refl

decide_iff_example : (decide command ≡ passthrough cargo_test agent_readable) ↔ (
    (agent_readable ≡ agent_readable)
    × All IsPlain command
    × ((words : List Bytes) × IsSplit command words × Names cargo_test words))
decide_iff_example = decide_iff command cargo_test agent_readable

abbrev reducer : Bytes
reducer = ascii "rg_v1_active"

active_source_policy_allowed_iff_example : (active_source_policy_allowed reducer ripgrep ≡ true) ↔ (
    ((reducer ≡ ascii "cargo_test_v1_active") × (ripgrep ≡ cargo_test))
    ⊎ (((reducer ≡ ascii "cargo_check_v2_active") × (ripgrep ≡ cargo_check))
        ⊎ ((reducer ≡ ascii "rg_v1_active") × (ripgrep ≡ ripgrep))))
active_source_policy_allowed_iff_example = active_source_policy_allowed_iff reducer ripgrep
