-- ===== src/Lthread.antt =====
-- src/sched/lthread.c with src/include/lthread.h: user-level threads. A thread is named by a number,
-- its address; `threads` is the memory that holds the structs, and a struct that was freed is gone
-- from it. The functions run one after the other, as on one scheduler.
mod Outcome
mod State
pub mod Free
pub mod Sched
pub mod Join
pub mod Keys
pub mod Run
pub mod Create
mod Tests
pub use Outcome.*
pub use State.*
