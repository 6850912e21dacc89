-- ===== src/Control/Status.antt =====
-- What src/wx/terminal_ctrl.cpp tells its host: `NotifyTitleChanged`, `ReportError`,
-- `ShowTransportNotice`, `UpdateTransportStatus` and `RestartTransport`, for a transport that is not null. What
-- is told, fed to the core and asked of the window is a list, in order; the callbacks are set.
pub mod Changes
use sakura_wx_prototype.Prelude.{
  ℕ, Bool, true, false, not, ◌&&◌, List, [], ◌∷◌, ◌++◌, ◌==◌, if◌then◌else◌,
}
use sakura_wx_prototype.Prelude.Int.{ℤ}
use sakura_wx_prototype.Paint.Glyphs.Keys.{same_text}
use sakura_wx_prototype.Pty.Process.{TransportState, stopped, starting, running, exited, failed}

pub record TransportStatus : Type 0 where
  pub state : TransportState
  pub exit_code : ℤ
  pub signal : ℕ
  pub exit_code_valid : Bool

-- The members that the functions use.
pub record Told : Type 0 where
  pub last_transport_state : TransportState
  pub last_title : List ℕ
  pub last_error : List ℕ

-- The text of the notice on a status: its words, and a code or a signal.
pub data Notice : Type 0 where
  process_started process_exited process_failed process_starting process_stopped : Notice
  exited_with_code : ℤ → Notice
  exited_on_signal : ℕ → Notice

pub data Message : Type 0 where
  title_changed error_reported : List ℕ → Message
  status_changed : TransportStatus → Message
  notice_shown : Notice → Message
  selection_cleared screen_cleared frame_requested : Message

unfoldable pub notify_title_changed : List ℕ → Told → Told × List Message
unfolding same_text
notify_title_changed title t =
    if same_text title t.last_title
    then (t, [])
    else (record t { last_title = title }, title_changed title ∷ [])

abbrev pub is_no_text : List ℕ → Bool
is_no_text [] = true
is_no_text (ch ∷ text) = false

unfoldable pub report_error : List ℕ → Told → Told × List Message
unfolding same_text
report_error message t =
    if is_no_text message
    then (t, [])
    else if same_text message t.last_error
    then (t, [])
    else (record t { last_error = message }, error_reported message ∷ [])

abbrev pub exit_notice : TransportStatus → Notice
exit_notice status =
    if not status.exit_code_valid
    then process_exited
    else if status.signal == 0
    then exited_with_code status.exit_code
    else exited_on_signal status.signal

abbrev pub notice_for : TransportState → TransportStatus → Notice
notice_for running status = process_started
notice_for exited status = exit_notice status
notice_for failed status = process_failed
notice_for starting status = process_starting
notice_for stopped status = process_stopped

abbrev pub same_state : TransportState → TransportState → Bool
same_state stopped stopped = true
same_state starting starting = true
same_state running running = true
same_state exited exited = true
same_state failed failed = true
same_state _ _ = false

-- `failure` is the text "Terminal process failed to start".
unfoldable pub report_failure : List ℕ → TransportState → Told → Told × List Message
unfolding report_error
report_failure failure failed t = report_error failure t
report_failure failure _ t = (t, [])

-- The notice of a process that has ended or could not start.
abbrev pub end_notice : TransportState → TransportStatus → List Message
end_notice exited status = notice_shown (notice_for exited status) ∷ []
end_notice failed status = notice_shown (notice_for failed status) ∷ []
end_notice _ status = []

unfoldable pub update_transport_status : List ℕ → TransportStatus → Told → Told × List Message
unfolding report_failure
update_transport_status failure status t =
    let reported =
      report_failure failure status.state (record t { last_transport_state = status.state }) in
    if same_state status.state t.last_transport_state then (t, []) else (
      reported.0,
      status_changed status
          ∷ (reported.1 ++ (end_notice status.state status ++ frame_requested ∷ [])),
    )

abbrev pub restart_state : TransportState → TransportState
restart_state failed = failed
restart_state _ = stopped

-- `RestartTransport` after the transport is stopped and started: `status` is its status then.
unfoldable pub restart_transport : List ℕ → TransportStatus → Told → Told × List Message
unfolding report_failure
restart_transport failure status t =
    let reported =
      report_failure failure status.state
        (record t { last_transport_state = restart_state status.state }) in
    (
      reported.0,
      selection_cleared
          ∷ screen_cleared
          ∷ notice_shown (notice_for status.state status)
          ∷ status_changed status
          ∷ (reported.1 ++ frame_requested ∷ []),
    )
