-- ===== src/Tests/Pty.antt =====
-- The theorems on the session of src/pty_session.cpp, at concrete inputs.
use sakura_wx_prototype.Pty.Process.{
  Process, TransportState, hang_up, child_ended, wait_interrupted, not_yet, exit_status, stop,
}
use sakura_wx_prototype.Pty.Process.Stops.{Stops, stop-Stops}
use sakura_wx_prototype.Prelude.Int.{negsuc}
use sakura_wx_prototype.Prelude.{false, ◌≡◌, refl, true, List, [], ◌∷◌, ◌++◌, none, some, arith}
use sakura_wx_prototype.Pty.{
  Output, Session, Event, Step, Answer, Writer, wrote, blocked, interrupted, take_locked,
  take_chunks, read_capacity, receive, write_bytes,
}
use sakura_wx_prototype.Pty.Queue.{flatten}
use sakura_wx_prototype.Pty.Steps.{Run, done, then_step, IsStarted, IsBounded, Run-IsBounded}
use sakura_wx_prototype.Pty.Order.{heard, handed_over, Run-in_order}
use sakura_wx_prototype.Pty.Write.{IsWritten, counted, write_bytes-IsWritten, write_bytes-true}

abbrev started : Session
started = record {
  output = record {
    chunks = [];
    queued_bytes = 0;
    bytes_read = 0;
    read_events = 0;
    max_queued_bytes = 0;
  };
  reader = none;
  owner = none;
}

started-IsStarted : IsStarted started
started-IsStarted = (refl, refl, omega arith, refl, refl)

abbrev two_chunks : Output
two_chunks = record {
  chunks = (1 ∷ 2 ∷ []) ∷ (3 ∷ 4 ∷ []) ∷ [];
  queued_bytes = 4;
  bytes_read = 4;
  read_events = 2;
  max_queued_bytes = 4;
}

take_three :
    take_locked 3 two_chunks
    ≡ ((1 ∷ 2 ∷ []) ∷ (3 ∷ []) ∷ [], 3, record two_chunks { chunks = (4 ∷ []) ∷ [] })
unfolding take_locked take_chunks
take_three = refl

-- The reader looks at the queue, three bytes arrive, and the owner takes two of them.
abbrev looked : Session
looked = record started { reader = some 8192 }

abbrev arrived : Session
arrived = record looked { output = receive (7 ∷ 8 ∷ 9 ∷ []) started.output; reader = none }

abbrev taken : Session
taken = record arrived {
  output = (take_locked 2 arrived.output).2;
  owner = some (take_locked 2 arrived.output).1;
}

abbrev events : List Event
events =
    (([] ++ Event.internal ∷ []) ++ Event.received (7 ∷ 8 ∷ 9 ∷ []) ∷ [])
    ++ Event.took 2 (take_locked 2 arrived.output).0 ∷ []

first_bytes : Run started events taken
unfolding read_capacity
first_bytes =
    then_step
      (then_step (then_step done (Step.look refl refl))
        (Step.read_some (7 ∷ 8 ∷ 9 ∷ []) refl (omega arith) (omega arith)))
      (Step.take_first 2 refl)

Run-IsBounded_example : IsBounded taken
Run-IsBounded_example = Run-IsBounded started-IsStarted first_bytes

Run-in_order_example : handed_over events ++ flatten taken.output.chunks ≡ heard events
Run-in_order_example = Run-in_order started-IsStarted first_bytes (refl, (refl, (refl, tt)))

abbrev writer : Writer
writer = record { is_open = true; bytes_written = 0; write_events = 0 }

-- The kernel takes two bytes, blocks, and takes the third.
abbrev answers : List Answer
answers = wrote 2 ∷ blocked ∷ interrupted ∷ wrote 1 ∷ []

write_bytes-IsWritten_example :
    IsWritten (1 ∷ 2 ∷ 3 ∷ []) writer (write_bytes answers (1 ∷ 2 ∷ 3 ∷ []) writer)
write_bytes-IsWritten_example =
    write_bytes-IsWritten answers (1 ∷ 2 ∷ 3 ∷ []) writer refl (omega arith, (omega arith, tt))

write_bytes-true_example :
    write_bytes answers (1 ∷ 2 ∷ 3 ∷ []) writer ≡ (1 ∷ 2 ∷ 3 ∷ [], some true, counted 3 writer)
write_bytes-true_example =
    write_bytes-true answers (1 ∷ 2 ∷ 3 ∷ []) writer refl (omega arith, (omega arith, tt))
      (refl, (refl, (refl, (refl, tt)))) (omega arith)

abbrev shell : Process
shell = record {
  stop_requested = false;
  is_running = true;
  state = TransportState.running;
  exit_code = negsuc 0;
  exit_signal = 0;
  exit_code_valid = false;
  master_fd = some 7;
  child_pid = some 4711;
  child_reaped = false;
  resize_events = 0;
}

-- The child ends after the signal to terminate.
stop-Stops_example : Stops (hang_up ∷ []) (
    stop
      (λ p. p)
      (not_yet 0 ∷ wait_interrupted ∷ not_yet 5 ∷ child_ended (exit_status 0) ∷ [])
      shell)
stop-Stops_example =
    stop-Stops (λ p. p)
      (not_yet 0 ∷ wait_interrupted ∷ not_yet 5 ∷ child_ended (exit_status 0) ∷ []) shell refl
