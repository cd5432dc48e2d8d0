-- ===== src/Lines.antt =====
-- The line tables of lab5, lab6 and lab7: where the lines of a file begin and how long they are.
-- Each lab has a child with its code; `Text` says what the lines of a text are.
pub mod Text
pub mod Pieces
pub mod Array
pub mod Lengths
pub mod Offsets
pub mod Mapped
mod Tests
