-- ===== src/Core/Budget/Laws.antt =====
-- Charges are atomic, and the counters are the sums of the charges that were accepted.
use tracepress.Base.{ℕ, ◌+◌, ◌≤◌, ◌<◌, ◌≡◌, ◌∙◌, List, [], ◌∷◌, arith, IsU64}
use tracepress.Core.Budget.{
  charge_all, ProcessingCharge, ProcessingBudget, ProcessingBudgetDecision, exhausted, continue,
  time, cpu_work, charge,
}

-- A charge fits both limits.
abbrev pub Affordable : ProcessingBudget → ProcessingCharge → Type 0
Affordable b c =
    (b.elapsed_ms + c.elapsed_ms ≤ b.maximum_time) × (b.work_units + c.work_units ≤ b.maximum_work)

-- What one charge does: both counters move, or none, and time is looked at before work.
abbrev pub ChargeSpec :
    ProcessingBudget → ProcessingCharge → ProcessingBudget × ProcessingBudgetDecision → Type 0
ChargeSpec b c (b', continue t w) =
    Affordable b c
    × (t ≡ b.elapsed_ms + c.elapsed_ms)
    × (w ≡ b.work_units + c.work_units)
    × (b' ≡ record b { elapsed_ms = t; work_units = w })
ChargeSpec b c (b', exhausted time before attempted limit) =
    (b.maximum_time < b.elapsed_ms + c.elapsed_ms)
    × (b' ≡ b)
    × (before ≡ b.elapsed_ms)
    × (attempted ≡ c.elapsed_ms)
    × (limit ≡ b.maximum_time)
ChargeSpec b c (b', exhausted cpu_work before attempted limit) =
    (b.elapsed_ms + c.elapsed_ms ≤ b.maximum_time)
    × (b.maximum_work < b.work_units + c.work_units)
    × (b' ≡ b)
    × (before ≡ b.work_units)
    × (attempted ≡ c.work_units)
    × (limit ≡ b.maximum_work)

-- For limits within 64 bits: a charge that fits both limits moves both counters by its amounts and
-- reports the sums; one that does not changes nothing, and reports the time if the time does not
-- fit, and else the work, with the counter, the attempted amount and the limit.
pub charge-ChargeSpec :
    (b : ProcessingBudget) (c : ProcessingCharge)
    → IsU64 b.maximum_time
    → IsU64 b.maximum_work
    → ChargeSpec b c (charge b c)
unfolding charge
charge-ChargeSpec b c ht hw = ground arith

-- The sums of the charges that a run accepted.
abbrev pub accepted_time : List ProcessingCharge → List ProcessingBudgetDecision → ℕ
accepted_time (c ∷ cs) (continue _ _ ∷ ds) = c.elapsed_ms + accepted_time cs ds
accepted_time (c ∷ cs) (_ ∷ ds) = accepted_time cs ds
accepted_time _ _ = 0

abbrev pub accepted_work : List ProcessingCharge → List ProcessingBudgetDecision → ℕ
accepted_work (c ∷ cs) (continue _ _ ∷ ds) = c.work_units + accepted_work cs ds
accepted_work (c ∷ cs) (_ ∷ ds) = accepted_work cs ds
accepted_work _ _ = 0

abbrev pub WithinBudget : ProcessingBudget → Type 0
WithinBudget b = (b.elapsed_ms ≤ b.maximum_time) × (b.work_units ≤ b.maximum_work)

charge-accounted :
    (b : ProcessingBudget) (c : ProcessingCharge) (cs : List ProcessingCharge)
    (ds : List ProcessingBudgetDecision)
    → WithinBudget b
    → IsU64 b.maximum_time
    → IsU64 b.maximum_work
    → WithinBudget (charge b c).0
      × ((charge b c).0.maximum_time ≡ b.maximum_time)
      × ((charge b c).0.maximum_work ≡ b.maximum_work)
      × ((charge b c).0.elapsed_ms + accepted_time cs ds
          ≡ b.elapsed_ms + accepted_time (c ∷ cs) ((charge b c).1 ∷ ds))
      × ((charge b c).0.work_units + accepted_work cs ds
          ≡ b.work_units + accepted_work (c ∷ cs) ((charge b c).1 ∷ ds))
unfolding charge
charge-accounted b c cs ds h ht hw = ground arith

-- Over any sequence of charges, from a budget within its limits, which are within 64 bits: the
-- counters stay within the limits, and each is its start plus the sum of exactly the charges that were answered `Continue`.
pub charge_all-accounted :
    (b : ProcessingBudget) (cs : List ProcessingCharge)
    → WithinBudget b
    → IsU64 b.maximum_time
    → IsU64 b.maximum_work
    → WithinBudget (charge_all b cs).0
      × ((charge_all b cs).0.elapsed_ms ≡ b.elapsed_ms + accepted_time cs (charge_all b cs).1)
      × ((charge_all b cs).0.work_units ≡ b.work_units + accepted_work cs (charge_all b cs).1)
unfolding charge_all
charge_all-accounted b [] h ht hw = omega arith
charge_all-accounted b (c ∷ cs) h ht hw =
    let (within, time_kept, work_kept, t, w) =
      charge-accounted b c cs (charge_all (charge b c).0 cs).1 h ht hw in
    let (done, t', w') =
      charge_all-accounted (charge b c).0 cs within (rw time_kept ht) (rw work_kept hw) in
    (done, t' ∙ t, w' ∙ w)
