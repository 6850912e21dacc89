-- ===== src/Paint.antt =====
-- The renderer of src/wx/terminal_renderer.cpp, class `WxRenderer::Impl`.
pub mod Glyphs
pub mod Durations
pub mod Surface
pub mod Animation
