-- ===== src/Ls.antt =====
-- APUE/apue-code/05/make-examples, the program ls: the options and the traversal of ls.c, the layouts
-- of print.c, the printing of names in util.c, the comparisons of cmp.c and the flags of stat_flags.c.
pub mod Compare
pub mod Keys
pub mod Order
pub mod Master
pub mod Flags
pub mod FlagWords
pub mod FlagTrip
pub mod Options
pub mod Choices
pub mod Layout
pub mod Escape
pub mod Listed
pub mod Columns
pub mod Measure
pub mod Long
pub mod Show
pub mod Main
pub mod Rows
pub mod Sheet
pub mod Texts
pub mod Counted
pub mod Width
pub mod Tally
pub mod Endings
pub mod Traversed
mod Tests
mod Listings
