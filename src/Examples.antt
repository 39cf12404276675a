-- ===== src/Examples.antt =====
-- Concrete inputs: the theorems of the other modules applied where their hypotheses hold.
mod Answers
mod Calls
mod Commands
mod Reminders
mod Replies
mod Reposts
mod Services
mod Streams
mod Ticks
mod Triggers
mod Undos
