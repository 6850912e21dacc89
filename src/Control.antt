-- ===== src/Control.antt =====
-- The control of src/wx/terminal_ctrl.cpp, class `WxTerminalCtrl`.
pub mod Wheel
pub mod Refresh
pub mod Cells
pub mod Mouse
pub mod Status
