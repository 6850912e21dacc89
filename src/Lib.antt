-- ===== src/Lib.antt =====
-- A model of the core of the sakura terminal: what is drawn, how changes are tracked, and how output
-- reaches the screen.
--
-- src/terminal_core.cpp keeps the terminal's screen as a packed grid. libtsm, which parses the
-- output and holds the screen, calls it back for every cell that changed; each such cell goes into a
-- dirty region and a list of dirty spans, its style is interned in the grid's table, and it is kept
-- as a changed cell. When a frame is taken, the grid is scrolled by whole rows if the screen was,
-- the rows with changes are rebuilt, and the frame shares the rows. The renderer reads frames by the
-- C interface of include/sakura/terminal/core_c.h. Output comes from a session, src/pty_session.cpp,
-- whose reader thread fills a queue that the owner empties. The control of
-- src/wx/terminal_ctrl.cpp owns a backend and a session: it feeds the output to the backend, sends
-- it keys and the mouse, takes frames, joins those that wait, and has the renderer of
-- src/wx/terminal_renderer.cpp paint them into a framebuffer.
--
--   * Dirty: the dirty region and spans (DirtyEmpty, IncludeDirty, IncludeCell, IncludeSpan,
--     IncludeCellSpan, IncludeFullSpans, IncludeRows).
--   * Style: PackedStyleFor, StyleIndex, PackedStyleId.
--   * Grid: the packed grid (BlankRow, EnsurePackedGrid, RotatePackedRows); Grid.Rebuild:
--     RebuildPackedRows, with the sort of the changes and the loops over rows, columns and cells.
--   * CursorStyle: TrackCursorStyle. Title: VteOsc. Scroll: DetectFullScreenShift,
--     ObserveScreenScroll, ResetScreenObservation.
--   * Frame: FillPackedRunView, ForEachPackedRunSpan and the frame functions of the C interface.
--   * Draw: DrawPackedCell with its context. Take: TakePackedFrame, which makes a frame of all these.
--   * Pty: the output queue (RecordMaximum, TakeOutput, DiscardOutput, the reader's part of ReadLoop)
--     with the steps of its two threads, and Write. Pty.Process: the child process (Start, Stop, Resize,
--     WaitForChild, RecordExitStatus).
--   * Frame.Info: the information on a frame (SakuraTerminalFrameInfo and its functions).
--   * Backend: the operations of TerminalBackend and the parser's callbacks (VteWrite, VteMouse).
--   * Paint: the renderer, src/wx/terminal_renderer.cpp. Glyphs: the glyph-run cache (GlyphRunBitmap,
--     EvictLeastRecentlyUsedGlyphRun). Durations: RecordPaintDuration, PaintPercentile. Surface:
--     ScrollFramebuffer by cells. Animation: BeginScrollAnimation,
--     AdvanceScrollAnimation, CancelScrollAnimation, DrawScrollAnimation.
--   * Control: the control, src/wx/terminal_ctrl.cpp. Wheel: QueueWheelScroll, FlushWheelScroll.
--     Refresh: RequestFrameRefresh and what OnPaint hands to the renderer. Cells: CellAt and
--     MouseModifiers. Mouse: the mouse handlers, with the calls they make; Mouse.Applied: those calls
--     on the backend. Status: NotifyTitleChanged, ReportError, UpdateTransportStatus and
--     RestartTransport.
--   * Prelude: shared names, machine words, integers, lists and bits. Tests: concrete runs.
--
-- A vector or a deque is a list, a string a list of bytes, a pointer that may be null an option. A
-- number of w bits is a natural number, and wraps where the source's may. A loop is recursion on the
-- number of its rounds: the rows or columns it runs over, the changes for RebuildPackedRows (each
-- round takes one at least), the cells of the run for ForEachPackedRunSpan (each span has one at
-- least), the answers of the kernel for Write, and the keys of the glyph-run cache for the evictions
-- that make room in it (each takes one).
--
-- What libtsm says of a cell's attributes and of the screen, how it encodes a code point, what
-- the kernel answers, what wxWidgets measures and draws, the time, and how a quotient of doubles
-- is rounded, are arguments. A shared row is a value, since no code changes a row once it is
-- made, and so is a shared grid, which is copied first. Not modelled: how a backend is made; the
-- functions of the C interface that forward to it; src/conpty_session.cpp; the keys, the
-- clipboard and the timer of the control; fonts, windows, and RenderFrame with PaintFrame, the
-- drawing of text and rectangles, which src/wx and src/main.cpp leave to wxWidgets.
pub mod Prelude
pub mod Dirty
pub mod Style
pub mod Backend
pub mod Control
pub mod CursorStyle
pub mod Title
pub mod Scroll
pub mod Grid
pub mod Frame
pub mod Draw
pub mod Take
pub mod Paint
pub mod Pty
pub mod Tests
