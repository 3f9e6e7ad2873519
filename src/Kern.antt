-- ===== src/Kern.antt =====
-- The kernel, lab/kern.
pub mod Env
pub mod PageTable
pub mod Pages
pub mod Sched
pub mod Kdebug
pub mod Spinlock
pub mod Syscall
pub mod UserMem
mod Examples
