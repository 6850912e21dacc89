-- ===== src/Tests.antt =====
-- The theorems at concrete inputs.
mod Grid
mod Dirty
mod Backend
mod Control
mod Core
mod Frame
mod Motion
mod Paint
mod Pty
mod Take
