-- ===== src/ToolProxy/Policy.antt =====
-- crates/tracepress-tool-proxy/src/policy.rs: the table of reducers and the active-policy test.
pub mod Laws
use tracepress.Base.{
  Bool, true, false, ◌&&◌, Option, none, some, List, [], ◌∷◌, Bytes, if◌then◌else◌, eq_bytes,
}
use tracepress.Base.Ascii.{ascii}
use tracepress.ToolProxy.Model.{
  CommandFamily, eq_family, cargo_test, cargo_check, cargo_clippy, ripgrep, git_status,
}

pub data SourcePolicyMode : Type 0 where
  shadow active : SourcePolicyMode

pub data SourcePolicyDecision : Type 0 where
  shadow_only accepted_opt_in rejected : SourcePolicyDecision

pub record SourceReducerPolicy : Type 0 where
  pub reducer_id : Bytes
  pub command_family : CommandFamily
  pub mode : SourcePolicyMode
  pub decision : SourcePolicyDecision

abbrev policy :
    Bytes → CommandFamily → SourcePolicyMode → SourcePolicyDecision → SourceReducerPolicy
policy id family mode decision = record {
  reducer_id = id;
  command_family = family;
  mode = mode;
  decision = decision;
}

abbrev pub source_reducer_policies : List SourceReducerPolicy
source_reducer_policies =
    policy (ascii "cargo_test_v1_shadow") cargo_test shadow shadow_only
    ∷ policy (ascii "cargo_test_v1_active") cargo_test active accepted_opt_in
    ∷ policy (ascii "cargo_check_v1_shadow") cargo_check shadow shadow_only
    ∷ policy (ascii "cargo_check_v1_active") cargo_check active rejected
    ∷ policy (ascii "cargo_check_v2_shadow") cargo_check shadow shadow_only
    ∷ policy (ascii "cargo_check_v2_active") cargo_check active accepted_opt_in
    ∷ policy (ascii "cargo_clippy_v1_shadow") cargo_clippy shadow rejected
    ∷ policy (ascii "rg_v1_shadow") ripgrep shadow shadow_only
    ∷ policy (ascii "rg_v1_active") ripgrep active accepted_opt_in
    ∷ policy (ascii "git_status_v1_shadow") git_status shadow shadow_only
    ∷ policy (ascii "git_status_v1_active") git_status active rejected
    ∷ []

-- `.iter().copied().find(|policy| policy.reducer_id == reducer_id)`.
pub find_policy : Bytes → List SourceReducerPolicy → Option SourceReducerPolicy
find_policy id [] = none
find_policy id (p ∷ ps) =
    let rest = find_policy id ps in if eq_bytes p.reducer_id id then some p else rest

pub source_reducer_policy : Bytes → Option SourceReducerPolicy
source_reducer_policy id = find_policy id source_reducer_policies

abbrev is_active : SourcePolicyMode → Bool
is_active active = true
is_active shadow = false

abbrev is_accepted : SourcePolicyDecision → Bool
is_accepted accepted_opt_in = true
is_accepted _ = false

abbrev pub allows : CommandFamily → Option SourceReducerPolicy → Bool
allows family none = false
allows family (some p) =
    eq_family p.command_family family && (is_active p.mode && is_accepted p.decision)

pub active_source_policy_allowed : Bytes → CommandFamily → Bool
active_source_policy_allowed id family = allows family (source_reducer_policy id)
