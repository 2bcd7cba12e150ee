-- ===== src/ToolProxy/Policy/Laws.antt =====
-- Which reducers may be active.
use tracepress.Base.{
  ◌≡◌, refl, sym, ◌↔◌, ◌⊎◌, inl, inr, true, List, [], ◌∷◌, arith, Bytes, Bool-cases, eq_bytes,
  eq_bytes_iff,
}
use tracepress.Base.Ascii.{ascii}
use tracepress.ToolProxy.Model.{CommandFamily, eq_family, cargo_test, cargo_check, ripgrep}
use tracepress.ToolProxy.Policy.{
  SourceReducerPolicy, active, accepted_opt_in, find_policy, allows, source_reducer_policies,
  source_reducer_policy, active_source_policy_allowed,
}

-- Some entry of the table allows this reducer to be active for this family.
abbrev Listed : Bytes → CommandFamily → List SourceReducerPolicy → Type 0
Listed id family [] = ⊥
Listed id family (p ∷ ps) =
    ((id ≡ p.reducer_id)
      × (family ≡ p.command_family)
      × (p.mode ≡ active)
      × (p.decision ≡ accepted_opt_in))
    ⊎ Listed id family ps

eq_family_eq : (a b : CommandFamily) → eq_family a b ≡ true → b ≡ a
unfolding eq_family
eq_family_eq a b e = ground arith

allows-Listed :
    (id : Bytes) (family : CommandFamily) (ps : List SourceReducerPolicy)
    → allows family (find_policy id ps) ≡ true
    → Listed id family ps
unfolding find_policy
allows-Listed id family [] e = cc
allows-Listed id family (p ∷ ps) e = elim (Bool-cases (eq_bytes p.reducer_id id)) [
  | inl here ↦
      let h = rw here at e in
      inl (
        sym ((eq_bytes_iff p.reducer_id id).0 here),
        eq_family_eq p.command_family family (ground arith),
        ground arith,
        ground arith,
      )
  | inr there ↦ inr (allows-Listed id family ps (rw there at e))
]

-- A reducer may be active for a family exactly in three cases: `cargo_test_v1_active` for
-- `cargo test`, `cargo_check_v2_active` for `cargo check` and `rg_v1_active` for ripgrep.
pub active_source_policy_allowed_iff :
    (id : Bytes) (family : CommandFamily)
    → (active_source_policy_allowed id family ≡ true) ↔ (
        ((id ≡ ascii "cargo_test_v1_active") × (family ≡ cargo_test))
        ⊎ (((id ≡ ascii "cargo_check_v2_active") × (family ≡ cargo_check))
            ⊎ ((id ≡ ascii "rg_v1_active") × (family ≡ ripgrep))))
unfolding active_source_policy_allowed source_reducer_policy find_policy eq_family eq_bytes
active_source_policy_allowed_iff id family = (
  λ e. ground (arith, allows-Listed id family source_reducer_policies e),
  λ h. elim h [
    | inl (i, f) ↦ rw (i, f) refl
    | inr (inl (i, f)) ↦ rw (i, f) refl
    | inr (inr (i, f)) ↦ rw (i, f) refl
  ],
)
