-- ===== src/Core/Budget.antt =====
-- crates/tracepress-core/src/structural_budget.rs: JSON shape, queue admission and the processing
-- budget.
pub mod Laws
use tracepress.Base.{ℕ, Option, none, some, List, [], ◌∷◌, ltb, leb, if◌then◌else◌, checked_add}

pub record JsonShape : Type 0 where
  pub nesting : ℕ
  pub items : ℕ

pub data JsonBudgetAxis : Type 0 where
  nesting items : JsonBudgetAxis

pub data JsonInspectionDecision : Type 0 where
  inspect : JsonInspectionDecision
  bypass : JsonBudgetAxis → ℕ → ℕ → JsonInspectionDecision

pub classify_json_shape : JsonShape → ℕ → ℕ → JsonInspectionDecision
classify_json_shape shape maximum_nesting maximum_items =
    if ltb maximum_nesting shape.nesting
    then bypass nesting shape.nesting maximum_nesting
    else if ltb maximum_items shape.items
    then bypass items shape.items maximum_items
    else inspect

pub data QueueDecision : Type 0 where
  within_limit : ℕ → QueueDecision
  reject : ℕ → ℕ → ℕ → QueueDecision

abbrev admit : ℕ → ℕ → ℕ → Option ℕ → QueueDecision
admit current incoming maximum (some total) =
    if leb total maximum then within_limit total else reject current incoming maximum
admit current incoming maximum none = reject current incoming maximum

unfoldable pub classify_ipc_queue : ℕ → ℕ → ℕ → QueueDecision
classify_ipc_queue current incoming maximum =
    admit current incoming maximum (checked_add current incoming)

pub record ProcessingCharge : Type 0 where
  pub elapsed_ms : ℕ
  pub work_units : ℕ

pub data ProcessingBudgetAxis : Type 0 where
  time cpu_work : ProcessingBudgetAxis

pub data ProcessingBudgetDecision : Type 0 where
  continue : ℕ → ℕ → ProcessingBudgetDecision
  exhausted : ProcessingBudgetAxis → ℕ → ℕ → ℕ → ProcessingBudgetDecision

pub record ProcessingBudget : Type 0 where
  pub maximum_time : ℕ
  pub maximum_work : ℕ
  pub elapsed_ms : ℕ
  pub work_units : ℕ

pub new : ℕ → ℕ → ProcessingBudget
new maximum_time maximum_work = record {
  maximum_time = maximum_time;
  maximum_work = maximum_work;
  elapsed_ms = 0;
  work_units = 0;
}

abbrev exhausted_time : ProcessingBudget → ℕ → ProcessingBudget × ProcessingBudgetDecision
exhausted_time b attempted = (b, exhausted time b.elapsed_ms attempted b.maximum_time)

abbrev exhausted_work : ProcessingBudget → ℕ → ProcessingBudget × ProcessingBudgetDecision
exhausted_work b attempted = (b, exhausted cpu_work b.work_units attempted b.maximum_work)

abbrev charge_work :
    ProcessingBudget → ProcessingCharge → ℕ → Option ℕ → ProcessingBudget × ProcessingBudgetDecision
charge_work b c next_time none = exhausted_work b c.work_units
charge_work b c next_time (some next_work) =
    if ltb b.maximum_work next_work
    then exhausted_work b c.work_units
    else (record b { elapsed_ms = next_time; work_units = next_work }, continue next_time next_work)

abbrev charge_time :
    ProcessingBudget → ProcessingCharge → Option ℕ → ProcessingBudget × ProcessingBudgetDecision
charge_time b c none = exhausted_time b c.elapsed_ms
charge_time b c (some next_time) =
    if ltb b.maximum_time next_time
    then exhausted_time b c.elapsed_ms
    else charge_work b c next_time (checked_add b.work_units c.work_units)

pub charge : ProcessingBudget → ProcessingCharge → ProcessingBudget × ProcessingBudgetDecision
charge b c = charge_time b c (checked_add b.elapsed_ms c.elapsed_ms)

-- The budget after a sequence of charges, and the decisions.
pub charge_all :
    ProcessingBudget → List ProcessingCharge → ProcessingBudget × List ProcessingBudgetDecision
charge_all b [] = (b, [])
charge_all b (c ∷ cs) =
    let (b', d) = charge b c in let (b'', ds) = charge_all b' cs in (b'', d ∷ ds)
