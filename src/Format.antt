-- ===== src/Format.antt =====
-- The output side of lowdown, src/format: the escaping of text for each output format.
pub mod Author
pub mod Entity
pub mod Html
pub mod Gemini
pub mod Roff
pub mod Latex
