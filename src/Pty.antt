-- ===== src/Pty.antt =====
-- `PosixPtySession` of src/pty_session.cpp: the output queue between the reader thread and the
-- owner, and `Write`. The same queue is in src/conpty_session.cpp. Texts are lists of bytes; the
-- kernel's answers are arguments.
pub mod Process
pub mod Queue
pub mod Steps
pub mod Order
pub mod Write
use sakura_wx_prototype.Prelude.{
  ℕ, ◌+◌, ◌-◌, ◌≤◌, min, ◌≡◌, Bool, true, false, List, [], ◌∷◌, ◌++◌, Option, none, some, leb, ltb,
  not, ◌==◌, if◌then◌else◌, length, take, drop, slice,
}
use sakura_wx_prototype.Prelude.Word.{u64, sub64}

abbrev pub maximum_queued_output_bytes : ℕ
maximum_queued_output_bytes = 1048576

-- The size of the buffer of `ReadLoop`.
abbrev pub buffer_size : ℕ
buffer_size = 8192

-- The members that the reader thread and the owner share.
pub record Output : Type 0 where
  pub chunks : List (List ℕ)
  pub queued_bytes : ℕ
  pub bytes_read : ℕ
  pub read_events : ℕ
  pub max_queued_bytes : ℕ

-- What the loop leaves in `maximum`.
unfoldable pub record_maximum : ℕ → ℕ → ℕ
record_maximum maximum value = if ltb maximum value then value else maximum

-- The number of bytes that the reader asks for, once it has read `queued_bytes`; `none` while the
-- queue is full.
unfoldable pub read_capacity : ℕ → Option ℕ
read_capacity queued =
    if leb maximum_queued_output_bytes queued
    then none
    else some (min buffer_size (maximum_queued_output_bytes - queued))

-- The reader appends what it has received.
unfoldable pub receive : List ℕ → Output → Output
unfolding record_maximum
receive bytes o =
    let queued = u64 (o.queued_bytes + length bytes) in
    record {
      chunks = o.chunks ++ (bytes ∷ []);
      queued_bytes = queued;
      bytes_read = u64 (o.bytes_read + length bytes);
      read_events = u64 (o.read_events + 1);
      max_queued_bytes = record_maximum o.max_queued_bytes queued;
    }

-- The loop of `TakeOutput`: the chunks taken, those left, and the number of bytes taken. Once a
-- chunk was cut, `taken` is `max_bytes` and the loop ends.
unfoldable pub take_chunks : List (List ℕ) → ℕ → ℕ → List (List ℕ) × List (List ℕ) × ℕ
take_chunks [] taken max_bytes = ([], [], taken)
take_chunks (chunk ∷ chunks) taken max_bytes =
    let available = max_bytes - taken in
    let (pending, left, total) = take_chunks chunks (taken + length chunk) max_bytes in
    if ltb taken max_bytes
    then (if leb (length chunk) available
        then (chunk ∷ pending, left, total)
        else (take available chunk ∷ [], drop available chunk ∷ chunks, taken + available))
    else ([], chunk ∷ chunks, taken)

-- The part of `TakeOutput` under the lock: the chunks, the number of bytes, and the queue.
unfoldable pub take_locked : ℕ → Output → List (List ℕ) × ℕ × Output
take_locked max_bytes o =
    let (pending, left, taken) = take_chunks o.chunks 0 max_bytes in
    (pending, taken, record o { chunks = left })

-- The rest of `TakeOutput`, after the lock.
unfoldable pub subtract_taken : ℕ → Output → Output
subtract_taken taken o = record o { queued_bytes = sub64 o.queued_bytes taken }

unfoldable pub discard_output : Output → Output
discard_output o = record o { chunks = []; queued_bytes = 0 }

-- The queue with what each thread keeps to itself: `reader` is the number of bytes that the reader
-- may still read, once it has looked at the queue's size, and `owner` what `TakeOutput` has taken
-- and not yet subtracted.
pub record Session : Type 0 where
  pub output : Output
  pub reader : Option ℕ
  pub owner : Option ℕ

pub data Event : Type 0 where
  internal : Event
  received : List ℕ → Event
  took : ℕ → List (List ℕ) → Event
  discarded : Event

-- The steps of the two threads, in any order: one reader in `ReadLoop`, and one owner that calls
-- `TakeOutput` and `DiscardOutput`. A step is what happens under the lock or by one atomic operation.
-- `read` returns at most as many bytes as were asked for.
pub data Step (s : Session) : Event → Session → Type 0 where
  look :
      {capacity : ℕ}
      → s.reader ≡ none
      → read_capacity s.output.queued_bytes ≡ some capacity
      → Step s internal (record s { reader = some capacity })
  read_nothing :
      {capacity : ℕ} → s.reader ≡ some capacity → Step s internal (record s { reader = none })
  read_some :
      {capacity : ℕ} (bytes : List ℕ)
      → s.reader ≡ some capacity
      → 1 ≤ length bytes
      → length bytes ≤ capacity
      → Step s (received bytes) (record s { output = receive bytes s.output; reader = none })
  take_first :
      (max_bytes : ℕ)
      → s.owner ≡ none
      → Step s (took max_bytes (take_locked max_bytes s.output).0) (record s {
        output = (take_locked max_bytes s.output).2;
        owner = some (take_locked max_bytes s.output).1;
      })
  take_last :
      {taken : ℕ}
      → s.owner ≡ some taken
      → Step s internal (record s { output = subtract_taken taken s.output; owner = none })
  discard : s.owner ≡ none → Step s discarded (record s { output = discard_output s.output })

-- What one round of the loop of `Write` gets from the kernel: `write` took bytes, was interrupted,
-- or would block while `poll` was ready, ran out of time or was interrupted; or anything else.
pub data Answer : Type 0 where
  wrote : ℕ → Answer
  interrupted : Answer
  blocked : Answer
  refused : Answer

-- The members that `Write` uses.
pub record Writer : Type 0 where
  pub is_open : Bool
  pub bytes_written : ℕ
  pub write_events : ℕ

-- The loop of `Write`, with one answer for each round: the bytes that the kernel took, and the
-- result, or `none` while it goes on.
unfoldable pub write_loop : List Answer → List ℕ → ℕ → List ℕ × Option Bool
write_loop [] data_bytes offset =
    if ltb offset (length data_bytes) then ([], none) else ([], some true)
write_loop (wrote n ∷ answers) data_bytes offset =
    let (sent, result) = write_loop answers data_bytes (offset + n) in
    if ltb offset (length data_bytes)
    then (if ltb 0 n then (slice data_bytes offset n ++ sent, result) else ([], some false))
    else ([], some true)
write_loop (interrupted ∷ answers) data_bytes offset =
    let rest = write_loop answers data_bytes offset in
    if ltb offset (length data_bytes) then rest else ([], some true)
write_loop (blocked ∷ answers) data_bytes offset =
    let rest = write_loop answers data_bytes offset in
    if ltb offset (length data_bytes) then rest else ([], some true)
write_loop (refused ∷ answers) data_bytes offset =
    if ltb offset (length data_bytes) then ([], some false) else ([], some true)

-- The arguments of `Write`: the bytes, or a null pointer and a length.
pub data Buffer : Type 0 where
  null : ℕ → Buffer
  bytes : List ℕ → Buffer

-- What follows the check of the pointer.
unfoldable pub write_bytes : List Answer → List ℕ → Writer → List ℕ × Option Bool × Writer
write_bytes answers data_bytes w =
    if not w.is_open
    then ([], some false, w)
    else (let (sent, result) = write_loop answers data_bytes 0 in
        elim result [
          | none ↦ (sent, none, w)
          | some ok ↦ (
            sent,
            some ok,
            if ok
                then record w {
                  bytes_written = u64 (w.bytes_written + length data_bytes);
                  write_events = u64 (w.write_events + 1);
                }
                else w,
          )
        ])

-- `Write`: the bytes that the kernel took, the result, and the members.
unfoldable pub write : List Answer → Buffer → Writer → List ℕ × Option Bool × Writer
unfolding write_bytes
write answers (null n) w = if n == 0 then write_bytes answers [] w else ([], some false, w)
write answers (bytes data_bytes) w = write_bytes answers data_bytes w
