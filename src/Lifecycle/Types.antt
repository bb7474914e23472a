-- ===== src/Lifecycle/Types.antt =====
-- The vocabulary of lifecycle/machine.py: the bot's status, why a run ended, the stage it reached,
-- and what drove a transition, with the wire texts of the string enums.
use meeting_bot_service.Prelude.{
  Bool, true, false, String, Option, none, some, ◌≡◌, refl, str_eq, if◌then◌else◌,
}

-- class BotStatus
pub data BotStatus : Type 0 where
  joining awaiting_admission active needs_help completed failed : BotStatus

-- class CompletionReason
pub data CompletionReason : Type 0 where
  stopped left_alone startup_alone evicted awaiting_admission_timeout : CompletionReason
  awaiting_admission_rejected join_failure validation_error : CompletionReason
  max_bot_time_exceeded : CompletionReason

-- class FailureStage
pub data FailureStage : Type 0 where
  requested joining awaiting_admission active : FailureStage

-- class TransitionSource
pub data TransitionSource : Type 0 where
  creation bot_callback user_stop scheduler_timeout runtime_destroy : TransitionSource

pub BotStatus-discrete : Discrete BotStatus
BotStatus-discrete = hlevel

-- status equality, `rec.status == to`
abbrev pub status_eq : BotStatus → BotStatus → Bool
status_eq BotStatus.joining BotStatus.joining = true
status_eq BotStatus.awaiting_admission BotStatus.awaiting_admission = true
status_eq BotStatus.active BotStatus.active = true
status_eq BotStatus.needs_help BotStatus.needs_help = true
status_eq BotStatus.completed BotStatus.completed = true
status_eq BotStatus.failed BotStatus.failed = true
status_eq _ _ = false

abbrev pub opt_status_eq : Option BotStatus → BotStatus → Bool
opt_status_eq none t = false
opt_status_eq (some s) t = status_eq s t

-- BotStatus.value
unfoldable pub status_value : BotStatus → String
status_value BotStatus.joining = "joining"
status_value BotStatus.awaiting_admission = "awaiting_admission"
status_value BotStatus.active = "active"
status_value BotStatus.needs_help = "needs_help"
status_value BotStatus.completed = "completed"
status_value BotStatus.failed = "failed"

-- BotStatus(text); `none` is the ValueError
unfoldable pub parse_status : String → Option BotStatus
parse_status s =
    if str_eq s "joining"
    then some BotStatus.joining
    else if str_eq s "awaiting_admission"
    then some BotStatus.awaiting_admission
    else if str_eq s "active"
    then some BotStatus.active
    else if str_eq s "needs_help"
    then some BotStatus.needs_help
    else if str_eq s "completed"
    then some BotStatus.completed
    else if str_eq s "failed"
    then some BotStatus.failed
    else none

-- CompletionReason.value
unfoldable pub reason_value : CompletionReason → String
reason_value CompletionReason.stopped = "stopped"
reason_value CompletionReason.left_alone = "left_alone"
reason_value CompletionReason.startup_alone = "startup_alone"
reason_value CompletionReason.evicted = "evicted"
reason_value CompletionReason.awaiting_admission_timeout = "awaiting_admission_timeout"
reason_value CompletionReason.awaiting_admission_rejected = "awaiting_admission_rejected"
reason_value CompletionReason.join_failure = "join_failure"
reason_value CompletionReason.validation_error = "validation_error"
reason_value CompletionReason.max_bot_time_exceeded = "max_bot_time_exceeded"

-- CompletionReason(text); `none` is the ValueError
unfoldable pub parse_reason : String → Option CompletionReason
parse_reason s =
    if str_eq s "stopped"
    then some CompletionReason.stopped
    else if str_eq s "left_alone"
    then some CompletionReason.left_alone
    else if str_eq s "startup_alone"
    then some CompletionReason.startup_alone
    else if str_eq s "evicted"
    then some CompletionReason.evicted
    else if str_eq s "awaiting_admission_timeout"
    then some CompletionReason.awaiting_admission_timeout
    else if str_eq s "awaiting_admission_rejected"
    then some CompletionReason.awaiting_admission_rejected
    else if str_eq s "join_failure"
    then some CompletionReason.join_failure
    else if str_eq s "validation_error"
    then some CompletionReason.validation_error
    else if str_eq s "max_bot_time_exceeded"
    then some CompletionReason.max_bot_time_exceeded
    else none

-- FailureStage.value
unfoldable pub stage_value : FailureStage → String
stage_value FailureStage.requested = "requested"
stage_value FailureStage.joining = "joining"
stage_value FailureStage.awaiting_admission = "awaiting_admission"
stage_value FailureStage.active = "active"

-- TransitionSource.value
unfoldable pub source_value : TransitionSource → String
source_value TransitionSource.creation = "creation"
source_value TransitionSource.bot_callback = "bot_callback"
source_value TransitionSource.user_stop = "user_stop"
source_value TransitionSource.scheduler_timeout = "scheduler_timeout"
source_value TransitionSource.runtime_destroy = "runtime_destroy"

-- The wire texts are read back as the values that were written, statuses and reasons alike.
parse-value :
    ((s : BotStatus) → parse_status (status_value s) ≡ some s)
    × ((r : CompletionReason) → parse_reason (reason_value r) ≡ some r)
unfolding parse_status status_value parse_reason reason_value
parse-value = (
  elim [
    | BotStatus.joining ↦ refl
    | BotStatus.awaiting_admission ↦ refl
    | BotStatus.active ↦ refl
    | BotStatus.needs_help ↦ refl
    | BotStatus.completed ↦ refl
    | BotStatus.failed ↦ refl
  ],
  elim [
    | CompletionReason.stopped ↦ refl
    | CompletionReason.left_alone ↦ refl
    | CompletionReason.startup_alone ↦ refl
    | CompletionReason.evicted ↦ refl
    | CompletionReason.awaiting_admission_timeout ↦ refl
    | CompletionReason.awaiting_admission_rejected ↦ refl
    | CompletionReason.join_failure ↦ refl
    | CompletionReason.validation_error ↦ refl
    | CompletionReason.max_bot_time_exceeded ↦ refl
  ],
)
