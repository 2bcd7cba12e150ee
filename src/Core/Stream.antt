-- ===== src/Core/Stream.antt =====
-- crates/tracepress-core/src/response_stream.rs: the byte budget of one response stream.
pub mod Laws
use tracepress.Base.{
  ℕ, Bool, true, false, Option, none, some, List, [], ◌∷◌, Bytes, ltb, if◌then◌else◌, checked_add,
  Result, ok, err,
}
use tracepress.Core.ByteBoundary.{
  ByteBoundaryError, stream_already_terminated, response_body, measured_len,
}

pub data ResponseLimitReason : Type 0 where
  body_limit counter_overflow : ResponseLimitReason

pub data StreamDecision : Type 0 where
  continue : ℕ → StreamDecision
  terminate_incomplete : ℕ → ℕ → ResponseLimitReason → StreamDecision

pub record StreamingResponseBudget : Type 0 where
  pub maximum : ℕ
  pub accepted_bytes : ℕ
  pub terminated : Bool

pub new : ℕ → StreamingResponseBudget
new maximum = record { maximum = maximum; accepted_bytes = 0; terminated = false }

abbrev Observed : Type 0
Observed = StreamingResponseBudget × Result ByteBoundaryError StreamDecision

abbrev terminate : StreamingResponseBudget → ℕ → ResponseLimitReason → Observed
terminate b chunk_bytes reason =
    (record b { terminated = true }, ok (terminate_incomplete b.accepted_bytes chunk_bytes reason))

-- The two branches behind `checked_add`.
abbrev account : StreamingResponseBudget → ℕ → Option ℕ → Observed
account b chunk_bytes none = terminate b chunk_bytes counter_overflow
account b chunk_bytes (some total) =
    if ltb b.maximum total
    then terminate b chunk_bytes body_limit
    else (record b { accepted_bytes = total }, ok (continue total))

abbrev measured : StreamingResponseBudget → Result ByteBoundaryError ℕ → Observed
measured b (err e) = (b, err e)
measured b (ok chunk_bytes) = account b chunk_bytes (checked_add b.accepted_bytes chunk_bytes)

pub observe_chunk : StreamingResponseBudget → Bytes → Observed
observe_chunk b chunk =
    if b.terminated
    then (b, err stream_already_terminated)
    else measured b (measured_len chunk response_body)

-- A consumer that goes on observing, whatever it is told.
pub observe_all : StreamingResponseBudget → List Bytes → StreamingResponseBudget
observe_all b [] = b
observe_all b (c ∷ cs) = observe_all (observe_chunk b c).0 cs
