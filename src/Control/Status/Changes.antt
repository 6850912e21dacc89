-- ===== src/Control/Status/Changes.antt =====
-- The statuses that src/wx/terminal_ctrl.cpp tells its host while it polls the transport.
use sakura_wx_prototype.Prelude.{
  ℕ, ◌≡◌, arith, refl, sym, ap, ◌∙◌, inl, inr, Bool, true, false, List, [], ◌∷◌, ◌++◌,
  if◌then◌else◌, Bool-cases, if_cases,
}
use sakura_wx_prototype.Paint.Glyphs.Keys.{same_text}
use sakura_wx_prototype.Pty.Process.{TransportState, stopped, starting, running, exited, failed}
use sakura_wx_prototype.Control.Status.{
  TransportStatus, Told, Message, title_changed, error_reported, status_changed, notice_shown,
  selection_cleared, screen_cleared, frame_requested, report_error, is_no_text, same_state,
  report_failure, end_notice, update_transport_status,
}

-- `UpdateTransportStatus` with one status after another.
unfoldable pub poll_all : List ℕ → List TransportStatus → Told → Told × List Message
unfolding update_transport_status
poll_all failure [] t = (t, [])
poll_all failure (status ∷ statuses) t =
    let now = update_transport_status failure status t in
    let later = poll_all failure statuses now.0 in (later.0, now.1 ++ later.1)

-- The statuses whose state is not that of the one before.
abbrev pub changes : TransportState → List TransportStatus → List TransportStatus
changes last [] = []
changes last (status ∷ statuses) =
    let rest = changes status.state statuses in
    if same_state status.state last then rest else status ∷ rest

-- The statuses that the host is told.
abbrev pub told : List Message → List TransportStatus
told [] = []
told (status_changed status ∷ messages) = status ∷ told messages
told (_ ∷ messages) = told messages

told-append : (xs ys : List Message) → told (xs ++ ys) ≡ told xs ++ told ys
told-append [] ys = refl
told-append (title_changed title ∷ xs) ys = told-append xs ys
told-append (error_reported message ∷ xs) ys = told-append xs ys
told-append (status_changed status ∷ xs) ys = ap (λ l. status ∷ l) (told-append xs ys)
told-append (notice_shown notice ∷ xs) ys = told-append xs ys
told-append (selection_cleared ∷ xs) ys = told-append xs ys
told-append (screen_cleared ∷ xs) ys = told-append xs ys
told-append (frame_requested ∷ xs) ys = told-append xs ys

-- Reporting an error tells no status and keeps the state.
abbrev IsQuiet : Told → Told × List Message → Type 0
IsQuiet t result = (result.0.last_transport_state ≡ t.last_transport_state) × (told result.1 ≡ [])

report_failure-IsQuiet :
    (failure : List ℕ) (state : TransportState) (t : Told)
    → IsQuiet t (report_failure failure state t)
unfolding report_failure report_error
report_failure-IsQuiet failure failed t =
    if_cases (IsQuiet t) (is_no_text failure) _ _ (λ none. (refl, refl))
      (λ some.
        if_cases (IsQuiet t) (same_text failure t.last_error) _ _ (λ same. (refl, refl))
          (λ new. (refl, refl)))
report_failure-IsQuiet failure stopped t = (refl, refl)
report_failure-IsQuiet failure starting t = (refl, refl)
report_failure-IsQuiet failure running t = (refl, refl)
report_failure-IsQuiet failure exited t = (refl, refl)

end_notice-told :
    (state : TransportState) (status : TransportStatus)
    → told (end_notice state status ++ frame_requested ∷ []) ≡ []
end_notice-told stopped status = refl
end_notice-told starting status = refl
end_notice-told running status = refl
end_notice-told exited status = refl
end_notice-told failed status = refl

same_state_eq : (a b : TransportState) → same_state a b ≡ true → a ≡ b
same_state_eq a b h = ground arith

abbrev one_change : TransportState → TransportStatus → List TransportStatus
one_change last status = if same_state status.state last then [] else status ∷ []

update-told :
    (failure : List ℕ) (status : TransportStatus) (t : Told)
    → let result = update_transport_status failure status t in
      (result.0.last_transport_state ≡ status.state)
      × (told result.1 ≡ one_change t.last_transport_state status)
unfolding update_transport_status
update-told failure status t =
    let asked : Told = record t { last_transport_state = status.state } in
    let (kept, quiet) = report_failure-IsQuiet failure status.state asked in
    let reported = report_failure failure status.state asked in
    elim (Bool-cases (same_state status.state t.last_transport_state)) [
      | inl e ↦ rw e (sym (same_state_eq status.state t.last_transport_state e), refl)
      | inr e ↦ rw e (
        kept,
        ap (λ l. status ∷ l)
            (told-append reported.1 (end_notice status.state status ++ frame_requested ∷ [])
              ∙ ap (λ l. l ++ told (end_notice status.state status ++ frame_requested ∷ [])) quiet
              ∙ end_notice-told status.state status),
      )
    ]

if_append :
    (b : Bool) (status : TransportStatus) (rest : List TransportStatus)
    → (if b then [] else status ∷ []) ++ rest ≡ (if b then rest else status ∷ rest)
if_append true status rest = refl
if_append false status rest = refl

-- However the transport is polled, the host is told exactly the statuses whose state differs from that of
-- the one before, the first from the last that was told, each once and in order, whatever errors and
-- notices come with them.
pub poll_all-told :
    (failure : List ℕ) (statuses : List TransportStatus) (t : Told)
    → told (poll_all failure statuses t).1 ≡ changes t.last_transport_state statuses
unfolding poll_all
poll_all-told failure [] t = refl
poll_all-told failure (status ∷ statuses) t =
    let now = update_transport_status failure status t in
    let (state, one) = update-told failure status t in
    let rest = poll_all-told failure statuses now.0 in
    told-append now.1 (poll_all failure statuses now.0).1
    ∙ ap (λ l. l ++ told (poll_all failure statuses now.0).1) one
    ∙ ap (λ l. one_change t.last_transport_state status ++ l) rest
    ∙ ap (λ s. one_change t.last_transport_state status ++ changes s statuses) state
    ∙ if_append (same_state status.state t.last_transport_state) status
        (changes status.state statuses)
