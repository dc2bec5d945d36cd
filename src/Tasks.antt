-- ===== src/Tasks.antt =====
-- core/tasks/tasks.c, sched.c, exit.c and ipc/signal.c: the task table, the run queue, the life of a
-- task, the scheduler's choice and signals.
-- A task pointer is a number, 0 the null pointer; `task` of `Sys` is the store of `task_t` objects.
-- The lists of children, linked through `sibling`, are lists of pointers. Interrupts are off in
-- each of these functions, so that a call is one step.
mod Store
mod Table
mod Life
mod Signal
pub mod Ring
pub mod Pick
pub mod Wait
pub mod Adopt
pub mod Laws
pub mod Tests
pub mod End
pub mod Send
pub mod Sent
pub use Store.*
pub use Table.*
pub use Life.*
pub use Signal.*
