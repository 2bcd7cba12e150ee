-- ===== src/ToolProxy/Model.antt =====
-- crates/tracepress-tool-proxy/src/model.rs: contracts, command families and admission outcomes.
use tracepress.Base.{Bool, true, false}

pub data OutputContract : Type 0 where
  agent_readable line_oriented_machine structured_machine unknown : OutputContract

pub data CommandFamily : Type 0 where
  cargo_test cargo_check cargo_clippy ripgrep git_status : CommandFamily

-- The derived `PartialEq`.
unfoldable pub eq_family : CommandFamily → CommandFamily → Bool
eq_family cargo_test cargo_test = true
eq_family cargo_check cargo_check = true
eq_family cargo_clippy cargo_clippy = true
eq_family ripgrep ripgrep = true
eq_family git_status git_status = true
eq_family _ _ = false

pub data FailOpenReason : Type 0 where
  unsupported shell_syntax : FailOpenReason

pub data RewriteDecision : Type 0 where
  passthrough : CommandFamily → OutputContract → RewriteDecision
  fail_open : FailOpenReason → RewriteDecision
