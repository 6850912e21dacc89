-- ===== src/Pty/Steps.antt =====
-- The queue of src/pty_session.cpp under every order of the steps of its two threads.
use mathlib.Core.List.{append-nil}
use sakura_wx_prototype.Prelude.{
  ℕ, ◌+◌, ◌≤◌, ◌≡◌, ap, sym, ◌∙◌, List, [], ◌∷◌, ◌++◌, Option, none, some, arith, length,
  length-append,
}
use sakura_wx_prototype.Prelude.Word.{u64}
use sakura_wx_prototype.Pty.{
  Session, Event, Step, read_capacity, record_maximum, receive, take_locked, subtract_taken,
  discard_output, maximum_queued_output_bytes,
}
use sakura_wx_prototype.Pty.Queue.{flatten, flatten-append, take_locked-prefix}

pub data Run (s : Session) : List Event → Session → Type 0 where
  done : Run s [] s
  then_step :
      {events : List Event} {event : Event} {t u : Session}
      → Run s events t
      → Step t event u
      → Run s (events ++ (event ∷ [])) u

abbrev pub amount : Option ℕ → ℕ
amount none = 0
amount (some n) = n

-- Every byte of the queue is counted once, what is queued and what may still arrive is at most the
-- limit, and so was it always.
pub record IsBounded (s : Session) : Type 0 where
  pub counted : s.output.queued_bytes ≡ length (flatten s.output.chunks) + amount s.owner
  pub limited : s.output.queued_bytes + amount s.reader ≤ maximum_queued_output_bytes
  pub was_limited : s.output.max_queued_bytes ≤ maximum_queued_output_bytes

-- A session whose `Start` has returned: no output, and a limit that was kept.
abbrev pub IsStarted : Session → Type 0
IsStarted s =
    (s.output.chunks ≡ [])
    × (s.output.queued_bytes ≡ 0)
    × (s.output.max_queued_bytes ≤ maximum_queued_output_bytes)
    × (s.reader ≡ none)
    × (s.owner ≡ none)

read_capacity_le :
    (queued capacity : ℕ)
    → read_capacity queued ≡ some capacity
    → queued + capacity ≤ maximum_queued_output_bytes
unfolding read_capacity
read_capacity_le queued capacity e = ground arith

Step-IsBounded : {s t : Session} {event : Event} → Step s event t → IsBounded s → IsBounded t
unfolding receive record_maximum subtract_taken discard_output take_locked
Step-IsBounded {s = s} (Step.look {capacity = c} free e) b =
    let granted = read_capacity_le s.output.queued_bytes c e in
    record { counted = b.counted; limited = omega arith; was_limited = b.was_limited }
Step-IsBounded {s = s} (Step.read_nothing e) b = record {
  counted = b.counted;
  limited = omega (arith, b.limited);
  was_limited = b.was_limited;
}
Step-IsBounded {s = s} (Step.read_some bytes e some_bytes fits) b =
    let asked = ap amount e in
    let size =
      ap length (flatten-append s.output.chunks (bytes ∷ []))
      ∙ length-append (flatten s.output.chunks) (bytes ++ [])
      ∙ ap (λ l. length (flatten s.output.chunks) + length l) (append-nil bytes) in
    let low = b.limited in
    let sum : u64 (s.output.queued_bytes + length bytes) ≡ s.output.queued_bytes + length bytes =
      omega arith in
    record {
      counted = omega (arith, b.counted, size);
      limited = omega arith;
      was_limited = ground (arith, b.was_limited);
    }
Step-IsBounded {s = s} (Step.take_first max_bytes e) b =
    let owned = ap amount e in
    let (bytes, total, count) = take_locked-prefix s.output max_bytes in
    let split =
      sym (ap length bytes)
      ∙ length-append (flatten (take_locked max_bytes s.output).0)
          (flatten (take_locked max_bytes s.output).2.chunks) in
    record {
      counted = omega (arith, b.counted, split, total);
      limited = b.limited;
      was_limited = b.was_limited;
    }
Step-IsBounded {s = s} (Step.take_last e) b =
    let owned = ap amount e in
    let low = b.limited in
    record {
      counted = omega (arith, b.counted);
      limited = omega (arith, b.counted);
      was_limited = b.was_limited;
    }
Step-IsBounded {s = s} (Step.discard e) b = record {
  counted = omega (arith, ap amount e);
  limited = omega (arith, b.limited);
  was_limited = b.was_limited;
}

IsStarted-IsBounded : {s : Session} → IsStarted s → IsBounded s
IsStarted-IsBounded {s = s} (chunks, queued, limit, reader, owner) =
    let empty = ap (λ c. length (flatten c)) chunks in
    let owned = ap amount owner in
    let granted = ap amount reader in
    record { counted = omega arith; limited = omega arith; was_limited = limit }

-- In every order of the reader's and the owner's steps from a start on: the counter is the number of
-- bytes in the queue and in an unfinished `TakeOutput`, and with what the reader was told it may read
-- it is at most one megabyte, as is the recorded maximum.
pub Run-IsBounded :
    {s t : Session} {events : List Event} → IsStarted s → Run s events t → IsBounded t
Run-IsBounded start done = IsStarted-IsBounded start
Run-IsBounded start (then_step run step) = Step-IsBounded step (Run-IsBounded start run)
