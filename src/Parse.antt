-- ===== src/Parse.antt =====
-- The input side of lowdown, src/parse: the recognisers of links, lines and attributes.
pub mod Autolink
pub mod Lines
pub mod Mail
pub mod Attrs
pub mod Header
