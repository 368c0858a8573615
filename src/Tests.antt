-- ===== src/Tests.antt =====
-- Small runs of the program, and its theorems at them.
mod Platform
mod Workers
mod Joins
mod Siblings
mod Tools
mod Plans
mod Todos
mod Memories
mod Subgoals
