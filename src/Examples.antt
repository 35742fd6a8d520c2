-- ===== src/Examples.antt =====
-- Concrete runs: each theorem at an input where its hypotheses hold.
mod Setting
mod Rows
mod Searches
mod Entries
mod Statements
mod Restarts
mod Processes
mod Plans
