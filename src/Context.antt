-- ===== src/Context.antt =====
-- idempotency.go, and what the engine uses of Go's `context`: how a context was derived from the
-- caller's, the operation ID that it carries, and when and why it ended.
pub mod OperationId
use Prim.Native.String.{◌++◌}
use go_orchestrator.Prelude.{ℕ, String, Option, none, some, leb, if◌then◌else◌}
use go_orchestrator.Errors.{Error}

-- `span c name` is what a `Tracer` returns: a child of `c`. The deadline of `with_timeout_cause` is
-- a point in time.
pub data Context : Type 0 where
  caller : Context
  with_operation_id : Context → String → Context
  span : Context → String → Context
  with_timeout_cause : Context → ℕ → Error → Context
  without_cancel : Context → Context

-- A context with a deadline ends with its parent or at the deadline, whichever comes first.
abbrev pub at_deadline : ℕ → Error → ℕ → Option (ℕ × Error) → Option (ℕ × Error)
at_deadline deadline cause now none = if leb deadline now then some (deadline, cause) else none
at_deadline deadline cause now (some (time, e)) =
    if leb time deadline then some (time, e) else some (deadline, cause)

-- When a context ended, and its `context.Cause`; `none` while it has not ended. What has ended the
-- caller's own context, if anything, comes from outside.
unfoldable pub ended : Option (ℕ × Error) → ℕ → Context → Option (ℕ × Error)
ended outside now caller = outside
ended outside now (with_operation_id c s) = ended outside now c
ended outside now (span c s) = ended outside now c
ended outside now (with_timeout_cause c deadline cause) =
    at_deadline deadline cause now (ended outside now c)
ended outside now (without_cancel c) = none

-- `OperationID`: the innermost value, or "" if there is none.
unfoldable pub operation_id_of : Context → String
operation_id_of caller = ""
operation_id_of (with_operation_id c s) = s
operation_id_of (span c s) = operation_id_of c
operation_id_of (with_timeout_cause c deadline cause) = operation_id_of c
operation_id_of (without_cancel c) = operation_id_of c

-- `operationID` and `compensationOperationID`.
unfoldable pub operation_id : String → String → String
operation_id execution_id step_name = execution_id ++ ("/" ++ step_name)

unfoldable pub compensation_operation_id : String → String → String
compensation_operation_id execution_id step_name =
    execution_id ++ ("/" ++ (step_name ++ "/compensate"))
