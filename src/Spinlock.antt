-- ===== src/Spinlock.antt =====
-- include/pipepp/core/spinlock.hpp: a test-and-set lock.
pub mod Threads
use pipepp_core.Prelude.{Bool, true, false, not, if◌then◌else◌}
use pipepp_core.Exec.{Exec, done, fault, deadlock, failed_assert}

-- `locked_`
pub record Spinlock : Type 0 where
  pub locked : Bool

abbrev pub unlocked : Spinlock
unlocked = record { locked = false }

-- `locked_.exchange(true)`: what was there, and the lock taken.
abbrev pub exchange : Spinlock → Bool × Spinlock
exchange l = (l.locked, record { locked = true })

-- `lock()` by the only running thread: nobody can release a lock that is held.
unfoldable pub lock : Spinlock → Exec Spinlock
lock l = let (was, l') = exchange l in if was then fault deadlock else done l'

-- `spinlock(spinlock&& other)`: the new lock is free, and the old one is expected to be.
unfoldable pub move_lock : Spinlock → Exec Spinlock
move_lock other = if other.locked then fault failed_assert else done unlocked

-- `operator=(spinlock&& other)`: the lock itself stays as it is.
unfoldable pub assign_lock : Spinlock → Spinlock → Exec Spinlock
assign_lock l other = if other.locked then fault failed_assert else done l

-- `unlock()`
abbrev pub unlock : Spinlock → Spinlock
unlock l = record { locked = false }

-- `try_lock()`
unfoldable pub try_lock : Spinlock → Bool × Spinlock
try_lock l = let (was, l') = exchange l in (not was, l')
