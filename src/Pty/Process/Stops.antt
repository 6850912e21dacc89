-- ===== src/Pty/Process/Stops.antt =====
-- `Stop` of src/pty_session.cpp ends the session.
use mathlib.Core.Option.{bind}
use sakura_wx_prototype.Prelude.{
  ℕ, ◌≡◌, ◌≢◌, refl, ap, ◌∙◌, ◌⊎◌, inl, inr, Bool, true, false, Option, none, some, List, [], ◌∷◌,
  ◌++◌, leb, if◌then◌else◌, if_cases,
}
use sakura_wx_prototype.Pty.Process.{
  TransportState, stopped, starting, running, exited, failed, Process, record_exit_status,
  exit_status, term_signal, other_status, WaitResult, reaped, already_reaped, timed_out,
  wait_failed, WaitAnswer, child_ended, wait_interrupted, no_child, wait_error, not_yet,
  wait_for_child, Signal, hang_up, terminate, kill, then_signal, end_child, record_result,
  stopped_state, has_child, close_session, stop,
}

-- Some answer says that the child has ended, or that there is none to wait for.
abbrev pub has_end : List WaitAnswer → Bool
has_end [] = false
has_end (child_ended status ∷ answers) = true
has_end (wait_interrupted ∷ answers) = has_end answers
has_end (no_child ∷ answers) = true
has_end (wait_error ∷ answers) = true
has_end (not_yet elapsed ∷ answers) = has_end answers

-- A wait has a result, and if it timed out the end of the child is still to come.
abbrev Waits : Option (WaitResult × List WaitAnswer) → Type 0
Waits waited =
    (r : WaitResult) × (rest : List WaitAnswer) × (waited ≡ some (r, rest))
    × (r ≡ timed_out → has_end rest ≡ true)

wait_for_child-Waits :
    (timeout : ℕ) (answers : List WaitAnswer)
    → has_end answers ≡ true
    → Waits (wait_for_child timeout answers)
unfolding wait_for_child
wait_for_child-Waits timeout [] h = absurd (cc)
wait_for_child-Waits timeout (child_ended status ∷ answers) h =
    (reaped status, answers, refl, λ e. absurd (cc))
wait_for_child-Waits timeout (wait_interrupted ∷ answers) h = wait_for_child-Waits timeout answers h
wait_for_child-Waits timeout (no_child ∷ answers) h =
    (already_reaped, answers, refl, λ e. absurd (cc))
wait_for_child-Waits timeout (wait_error ∷ answers) h =
    (wait_failed, answers, refl, λ e. absurd (cc))
wait_for_child-Waits timeout (not_yet elapsed ∷ answers) h =
    if_cases Waits (leb timeout elapsed) _ _ (λ late. (timed_out, answers, refl, λ e. h))
      (λ early. wait_for_child-Waits timeout answers h)

-- A signal is sent exactly if the wait before it timed out.
abbrev Signals :
    Signal → WaitResult → List Signal → Option (WaitResult × List WaitAnswer × List Signal) → Type 0
Signals signal before signals result =
    (r : WaitResult) × (rest : List WaitAnswer) × (sent : List Signal) × (result
      ≡ some (r, rest, sent))
    × (r ≡ timed_out → has_end rest ≡ true)
    × (((before ≡ timed_out) × (sent ≡ signals ++ signal ∷ []))
        ⊎ ((r ≡ before) × (r ≢ timed_out) × (sent ≡ signals)))

then_signal-Signals :
    (signal : Signal) (timeout : ℕ) (before : WaitResult) (answers : List WaitAnswer)
    (signals : List Signal)
    → (before ≡ timed_out → has_end answers ≡ true)
    → Signals signal before signals (then_signal signal timeout (before, answers) signals)
unfolding then_signal bind
then_signal-Signals signal timeout timed_out answers signals h =
    let (r, rest, waited, still) = wait_for_child-Waits timeout answers (h refl) in
    rw waited (r, rest, signals ++ signal ∷ [], refl, still, inl (refl, refl))
then_signal-Signals signal timeout (reaped status) answers signals h =
    (reaped status, answers, signals, refl, h, inr (refl, λ e. absurd (cc), refl))
then_signal-Signals signal timeout already_reaped answers signals h =
    (already_reaped, answers, signals, refl, h, inr (refl, λ e. absurd (cc), refl))
then_signal-Signals signal timeout wait_failed answers signals h =
    (wait_failed, answers, signals, refl, h, inr (refl, λ e. absurd (cc), refl))

-- The signals go up: none more, one to terminate, or that and one to kill.
abbrev pub IsEscalation : List Signal → List Signal → Type 0
IsEscalation signals sent =
    (sent ≡ signals)
    ⊎ (sent ≡ signals ++ terminate ∷ [])
    ⊎ (sent ≡ (signals ++ terminate ∷ []) ++ kill ∷ [])

abbrev EndsChild : List Signal → Option (WaitResult × List Signal) → Type 0
EndsChild signals result =
    (r : WaitResult) × (sent : List Signal) × (result ≡ some (r, sent)) × IsEscalation signals sent

-- Why a list of signals was sent.
abbrev IsSent : Signal → WaitResult → WaitResult → List Signal → List Signal → Type 0
IsSent signal before r signals sent =
    ((before ≡ timed_out) × (sent ≡ signals ++ signal ∷ []))
    ⊎ ((r ≡ before) × (r ≢ timed_out) × (sent ≡ signals))

escalates :
    (signals sent sent_3 : List Signal) (first second third : WaitResult)
    → IsSent terminate first second signals sent
    → IsSent kill second third sent sent_3
    → IsEscalation signals sent_3
escalates signals sent sent_3 first second third (inl late) (inl later) =
    inr (inr (later.1 ∙ ap (λ l. l ++ kill ∷ []) late.1))
escalates signals sent sent_3 first second third (inl late) (inr in_time) =
    inr (inl (in_time.2 ∙ late.1))
escalates signals sent sent_3 first second third (inr in_time) (inl later) =
    absurd (in_time.1 later.0)
escalates signals sent sent_3 first second third (inr in_time) (inr kept) = inl (kept.2 ∙ in_time.2)

end_child-ends :
    (answers : List WaitAnswer) (signals : List Signal)
    → has_end answers ≡ true
    → EndsChild signals (end_child answers signals)
unfolding end_child bind
end_child-ends answers signals h =
    let (first, rest, waited, still) = wait_for_child-Waits 0 answers h in
    let (second, rest_2, sent, made, still_2, why) =
      then_signal-Signals terminate 500 first rest signals still in
    let (third, rest_3, sent_3, made_3, still_3, why_3) =
      then_signal-Signals kill 2000 second rest_2 sent still_2 in
    rw (waited, made, made_3)
      (third, sent_3, refl, escalates signals sent sent_3 first second third why why_3)

-- The session has ended: nothing runs, and the descriptor and the child are gone.
abbrev pub IsEnded : Process → Type 0
IsEnded p =
    (p.is_running ≡ false)
    × (p.master_fd ≡ none)
    × (p.child_pid ≡ none)
    × (p.state ≢ starting)
    × (p.state ≢ running)

stopped_state-ended :
    (state : TransportState) → (stopped_state state ≢ starting) × (stopped_state state ≢ running)
stopped_state-ended stopped = (λ e. absurd (cc), λ e. absurd (cc))
stopped_state-ended starting = (λ e. absurd (cc), λ e. absurd (cc))
stopped_state-ended running = (λ e. absurd (cc), λ e. absurd (cc))
stopped_state-ended exited = (λ e. absurd (cc), λ e. absurd (cc))
stopped_state-ended failed = (λ e. absurd (cc), λ e. absurd (cc))

close_session-IsEnded :
    (p : Process) → p.master_fd ≡ none → p.child_pid ≡ none → IsEnded (close_session p)
close_session-IsEnded p fd pid =
    let (not_starting, not_running) = stopped_state-ended p.state in
    (refl, fd, pid, not_starting, not_running)

record_result-detached :
    (r : WaitResult) (p : Process)
    → ((record_result r p).master_fd ≡ p.master_fd) × ((record_result r p).child_pid ≡ p.child_pid)
unfolding record_result record_exit_status
record_result-detached (reaped (exit_status code)) p = (refl, refl)
record_result-detached (reaped (term_signal n)) p = (refl, refl)
record_result-detached (reaped other_status) p = (refl, refl)
record_result-detached already_reaped p = (refl, refl)
record_result-detached timed_out p = (refl, refl)
record_result-detached wait_failed p = (refl, refl)

abbrev pub Stops : List Signal → Option (Process × List Signal) → Type 0
Stops signals result =
    (q : Process) × (sent : List Signal) × (result ≡ some (q, sent))
    × IsEnded q
    × IsEscalation signals sent

-- `Stop`, whatever the reader has done by the time it is joined, returns if the end of the child is among
-- the answers that `waitpid` gives: nothing runs then, the descriptor and the child are gone, and the
-- state is neither starting nor running; and the signals that were sent are, after the hang-up for a child that
-- had not been waited for, none, the one to terminate, or that and then the one to kill.
pub stop-Stops :
    (join : Process → Process) (answers : List WaitAnswer) (p : Process)
    → has_end answers ≡ true
    → Stops (if has_child p then hang_up ∷ [] else []) (stop join answers p)
unfolding stop bind
stop-Stops join answers p h =
    let signals = if has_child p then hang_up ∷ [] else [] in
    let asked = join (record p { stop_requested = true }) in
    let detached : Process = record asked { master_fd = none; child_pid = none } in
    if_cases (Stops signals) _
      (bind (end_child answers signals)
        (λ ended. some (close_session (record_result ended.0 detached), ended.1)))
      (some (close_session detached, signals))
      (λ waits.
        let (r, sent, ended, up) = end_child-ends answers signals h in
        let (fd, pid) = record_result-detached r detached in
        rw ended (
          close_session (record_result r detached),
          sent,
          refl,
          close_session-IsEnded (record_result r detached) fd pid,
          up,
        ))
      (λ none.
        (close_session detached, signals, refl, close_session-IsEnded detached refl refl, inl refl))
