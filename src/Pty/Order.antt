-- ===== src/Pty/Order.antt =====
-- The order of the bytes that pass through the queue of src/pty_session.cpp.
use mathlib.Core.List.{append-nil, append_assoc}
use sakura_wx_prototype.Prelude.{
  ℕ, ◌≡◌, refl, ap, sym, Bool, true, false, List, [], ◌∷◌, ◌++◌, All, All-append_split,
}
use sakura_wx_prototype.Pty.{Session, Event, Step, receive, take_locked, subtract_taken}
use sakura_wx_prototype.Pty.Queue.{flatten, flatten-append, take_locked-prefix}
use sakura_wx_prototype.Pty.Steps.{Run, done, then_step, IsStarted}

-- The bytes that arrived, and the bytes that were handed over.
abbrev pub heard : List Event → List ℕ
heard [] = []
heard (Event.internal ∷ es) = heard es
heard (Event.received bytes ∷ es) = bytes ++ heard es
heard (Event.took n chunks ∷ es) = heard es
heard (Event.discarded ∷ es) = heard es

abbrev pub handed_over : List Event → List ℕ
handed_over [] = []
handed_over (Event.internal ∷ es) = handed_over es
handed_over (Event.received bytes ∷ es) = handed_over es
handed_over (Event.took n chunks ∷ es) = flatten chunks ++ handed_over es
handed_over (Event.discarded ∷ es) = handed_over es

abbrev pub is_discard : Event → Bool
is_discard Event.discarded = true
is_discard e = false

heard-append : (es fs : List Event) → heard (es ++ fs) ≡ heard es ++ heard fs
heard-append [] fs = refl
heard-append (Event.internal ∷ es) fs = heard-append es fs
heard-append (Event.received bytes ∷ es) fs =
    rw (heard-append es fs, append_assoc bytes (heard es) (heard fs)) refl
heard-append (Event.took n chunks ∷ es) fs = heard-append es fs
heard-append (Event.discarded ∷ es) fs = heard-append es fs

handed_over-append :
    (es fs : List Event) → handed_over (es ++ fs) ≡ handed_over es ++ handed_over fs
handed_over-append [] fs = refl
handed_over-append (Event.internal ∷ es) fs = handed_over-append es fs
handed_over-append (Event.received bytes ∷ es) fs = handed_over-append es fs
handed_over-append (Event.took n chunks ∷ es) fs =
    rw (handed_over-append es fs, append_assoc (flatten chunks) (handed_over es) (handed_over fs))
      refl
handed_over-append (Event.discarded ∷ es) fs = handed_over-append es fs

abbrev contents : Session → List ℕ
contents s = flatten s.output.chunks

Step-contents :
    {s t : Session} {event : Event}
    → Step s event t
    → is_discard event ≡ false
    → contents s ++ heard (event ∷ []) ≡ handed_over (event ∷ []) ++ contents t
unfolding receive subtract_taken
Step-contents {s = s} (Step.look free e) kept = append-nil (contents s)
Step-contents {s = s} (Step.read_nothing e) kept = append-nil (contents s)
Step-contents {s = s} (Step.read_some bytes e some_bytes fits) kept =
    sym (flatten-append s.output.chunks (bytes ∷ []))
Step-contents {s = s} (Step.take_first max_bytes e) kept =
    let (bytes, total, count) = take_locked-prefix s.output max_bytes in
    rw (append-nil (contents s), append-nil (flatten (take_locked max_bytes s.output).0), bytes)
      refl
Step-contents {s = s} (Step.take_last e) kept = append-nil (contents s)
Step-contents {s = s} (Step.discard e) kept = absurd (cc)

-- In every order of the steps from a start on in which nothing is discarded: what the owner has taken
-- and then what the queue holds are the bytes that the reader received, in order.
pub Run-in_order :
    {s t : Session} {events : List Event}
    → IsStarted s
    → Run s events t
    → All (λ e. is_discard e ≡ false) events
    → handed_over events ++ flatten t.output.chunks ≡ heard events
Run-in_order start done kept = ap flatten start.0
Run-in_order start (then_step {events = events} {event = event} {t = t} {u = u} run step) kept =
    let (before, last) = All-append_split (λ e. is_discard e ≡ false) events (event ∷ []) kept in
    let ih = Run-in_order start run before in
    let bytes = Step-contents step last.0 in
    rw
      (
        handed_over-append events (event ∷ []),
        heard-append events (event ∷ []),
        append_assoc (handed_over events) (handed_over (event ∷ [])) (flatten u.output.chunks),
        ← bytes,
        ← append_assoc (handed_over events) (flatten t.output.chunks) (heard (event ∷ [])),
        ih,
      )
      refl
