-- ===== src/Core/Lifecycle.antt =====
-- crates/tracepress-core/src/lifecycle.rs and finalization.rs: the states of sessions, operations
-- and inferences, and the rule that turns a terminal inference into an operation's status.
pub mod Laws
use tracepress.Base.{Result, ◌>>=◌, ◌>>◌, ok, err}

pub data SessionState : Type 0 where
  active closing closed stale : SessionState

pub data OperationStatus : Type 0 where
  started completed incomplete cancelled errored disconnected : OperationStatus

pub data InferenceStatus : Type 0 where
  started streaming completed incomplete cancelled errored disconnected : InferenceStatus

pub data CommitState : Type 0 where
  committed pending uncertain : CommitState

pub data FinalizationError : Type 0 where
  stale_session closed_session : FinalizationError
  inference_still_running : InferenceStatus → FinalizationError
  success_not_committed : CommitState → FinalizationError

-- The `match` on the session, which only returns early.
abbrev session_open : SessionState → Result FinalizationError (Unit {0})
session_open active = ok tt
session_open closing = ok tt
session_open closed = err closed_session
session_open stale = err stale_session

abbrev finalize_completed : CommitState → Result FinalizationError OperationStatus
finalize_completed committed = ok OperationStatus.completed
finalize_completed pending = err (success_not_committed pending)
finalize_completed uncertain = err (success_not_committed uncertain)

abbrev finalize_status : InferenceStatus → CommitState → Result FinalizationError OperationStatus
finalize_status started c = err (inference_still_running started)
finalize_status streaming c = err (inference_still_running streaming)
finalize_status completed c = finalize_completed c
finalize_status incomplete c = ok OperationStatus.incomplete
finalize_status cancelled c = ok OperationStatus.cancelled
finalize_status errored c = ok OperationStatus.errored
finalize_status disconnected c = ok OperationStatus.disconnected

pub finalize_inference :
    SessionState → InferenceStatus → CommitState → Result FinalizationError OperationStatus
finalize_inference session status commit = do session_open session; finalize_status status commit
