-- ===== src/Pty/Process.antt =====
-- The child process of src/pty_session.cpp: `RecordExitStatus`, `WaitForChild`, `Start`, `Stop`, `Resize`,
-- `GetStatus` and the end of `ReadLoop`, on POSIX. What `waitpid` answers, with the milliseconds since the
-- wait began, is a list of answers; no answers left is `none`. A signal is sent to the process group.
pub mod Stops
use mathlib.Core.Option.{bind}
use sakura_wx_prototype.Prelude.{
  ℕ, ◌+◌, ◌%◌, ◌^◌, min, max, Bool, true, false, not, ◌&&◌, ◌||◌, Option, none, some, List, [], ◌∷◌,
  ◌++◌, leb, if◌then◌else◌,
}
use sakura_wx_prototype.Prelude.Int.{ℤ, pos, negsuc}
use sakura_wx_prototype.Prelude.Word.{u16, u64}

pub data TransportState : Type 0 where
  stopped starting running exited failed : TransportState

-- The status of a child: it exited with a code, a signal ended it, or neither.
pub data ChildStatus : Type 0 where
  exit_status term_signal : ℕ → ChildStatus
  other_status : ChildStatus

pub record Process : Type 0 where
  pub stop_requested : Bool
  pub is_running : Bool
  pub state : TransportState
  pub exit_code : ℤ
  pub exit_signal : ℕ
  pub exit_code_valid : Bool
  pub master_fd : Option ℕ
  pub child_pid : Option ℕ
  pub child_reaped : Bool
  pub resize_events : ℕ

unfoldable pub record_exit_status : ChildStatus → Process → Process
record_exit_status (exit_status code) p = record p {
  exit_code = pos code;
  exit_signal = 0;
  exit_code_valid = true;
}
record_exit_status (term_signal n) p = record p {
  exit_code = negsuc 0;
  exit_signal = n;
  exit_code_valid = true;
}
record_exit_status other_status p = p

pub data WaitResult : Type 0 where
  reaped : ChildStatus → WaitResult
  already_reaped timed_out wait_failed : WaitResult

pub data WaitAnswer : Type 0 where
  child_ended : ChildStatus → WaitAnswer
  wait_interrupted no_child wait_error : WaitAnswer
  not_yet : ℕ → WaitAnswer

-- The result of `WaitForChild`, and the answers that are left.
unfoldable pub wait_for_child : ℕ → List WaitAnswer → Option (WaitResult × List WaitAnswer)
wait_for_child timeout [] = none
wait_for_child timeout (child_ended status ∷ answers) = some (reaped status, answers)
wait_for_child timeout (wait_interrupted ∷ answers) = wait_for_child timeout answers
wait_for_child timeout (no_child ∷ answers) = some (already_reaped, answers)
wait_for_child timeout (wait_error ∷ answers) = some (wait_failed, answers)
wait_for_child timeout (not_yet elapsed ∷ answers) =
    let rest = wait_for_child timeout answers in
    if leb timeout elapsed then some (timed_out, answers) else rest

pub data Signal : Type 0 where
  hang_up terminate kill : Signal

-- After a wait that timed out: a signal, and another wait, with all signals that were sent.
unfoldable pub then_signal :
    Signal
    → ℕ
    → WaitResult × List WaitAnswer
    → List Signal
    → Option (WaitResult × List WaitAnswer × List Signal)
unfolding wait_for_child
then_signal signal timeout (timed_out, answers) signals =
    bind (wait_for_child timeout answers)
      (λ waited. some (waited.0, waited.1, signals ++ signal ∷ []))
then_signal signal timeout (result, answers) signals = some (result, answers, signals)

-- The three waits of `Stop`.
unfoldable pub end_child : List WaitAnswer → List Signal → Option (WaitResult × List Signal)
unfolding then_signal
end_child answers signals = bind (wait_for_child 0 answers) (λ first.
    bind (then_signal terminate 500 first signals) (λ second.
      bind (then_signal kill 2000 (second.0, second.1) second.2)
        (λ third. some (third.0, third.2))))

unfoldable pub record_result : WaitResult → Process → Process
unfolding record_exit_status
record_result (reaped status) p = record_exit_status status p
record_result _ p = p

abbrev pub stopped_state : TransportState → TransportState
stopped_state starting = stopped
stopped_state running = stopped
stopped_state state = state

abbrev pub has_child : Process → Bool
has_child p = elim p.child_pid [ none ↦ false | some pid ↦ not p.child_reaped ]

abbrev pub close_session : Process → Process
close_session p = record p { is_running = false; state = stopped_state p.state }

-- `Stop`: `join` is what the reader has done by the time it is joined. The signals are those that are sent.
unfoldable pub stop :
    (Process → Process) → List WaitAnswer → Process → Option (Process × List Signal)
unfolding end_child record_result
stop join answers p =
    let asked = join (record p { stop_requested = true }) in
    let detached = record asked { master_fd = none; child_pid = none } in
    let signals = if has_child p then hang_up ∷ [] else [] in
    let waits : Bool = elim p.child_pid [ none ↦ false | some pid ↦ not asked.child_reaped ] in
    if waits
    then bind (end_child answers signals)
        (λ ended. some (close_session (record_result ended.0 detached), ended.1))
    else some (close_session detached, signals)

abbrev pub start_size : ℕ → ℕ
start_size n = min (max n 1) 65535

-- `Start` once `Stop` is done: `forked` is the descriptor and the child, if the fork succeeds, and the
-- result has the columns and rows that the child gets.
unfoldable pub start : Option (ℕ × ℕ) → ℕ → ℕ → Process → Option (ℕ × ℕ) × Process
start none columns rows p = (
  none,
  record p { state = failed; exit_code = negsuc 0; exit_signal = 0; exit_code_valid = false },
)
start (some (master, child)) columns rows p = (
  some (start_size columns, start_size rows),
  record p {
    stop_requested = false;
    is_running = true;
    state = running;
    exit_code = negsuc 0;
    exit_signal = 0;
    exit_code_valid = false;
    master_fd = some master;
    child_pid = some child;
    child_reaped = false;
  },
)

-- `Resize`: the columns and rows that the kernel is given, and whether it takes them.
unfoldable pub resize_to : Bool → ℕ → ℕ → Process → Option (ℕ × ℕ) × Process
resize_to accepted columns rows p = elim p.master_fd [
  | none ↦ (none, p)
  | some fd ↦ (
    some (u16 columns, u16 rows),
    if accepted then record p { resize_events = u64 (p.resize_events + 1) } else p,
  )
]

-- The end of `ReadLoop`, after the child's output: the status, if the wait for the child got one.
unfoldable pub finish_reading : Option ChildStatus → Process → Process
unfolding record_exit_status
finish_reading status p =
    if p.stop_requested then record p { is_running = false } else elim status [
      | none ↦ record p { is_running = false; state = exited }
      | some s ↦ record (record_exit_status s p) {
        is_running = false;
        state = exited;
        child_reaped = true;
      }
    ]
