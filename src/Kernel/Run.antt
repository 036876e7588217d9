-- ===== src/Kernel/Run.antt =====
-- The running system: what interrupts, exceptions and system calls do to the kernel of
-- student-distrib, one after the other.
pub mod Stacks
pub mod Sound
pub mod Return
mod Tests
use linux_base_operating_sys.Prelude.{ℕ, ◌≡◌, Option, some}
use linux_base_operating_sys.Prelude.Int.{ℤ}
use linux_base_operating_sys.Fs.{Dentry}
use linux_base_operating_sys.Rtc.{rtc_handler}
use linux_base_operating_sys.Paging.{Tables}
use linux_base_operating_sys.Kernel.{Kernel, deref}
use linux_base_operating_sys.Kernel.Process.{Outcome, execute, halt}
use linux_base_operating_sys.Kernel.Exceptions.{exception_handler}
use linux_base_operating_sys.Kernel.Press.{Setting, press}
use linux_base_operating_sys.Kernel.Switch.{Switched}
use linux_base_operating_sys.Kernel.Drivers.Keeps.{AllKeep}
use linux_base_operating_sys.Kernel.Files.{Machine, read, write, sys_open, close, getargs, vidmap}

-- One step: a key, with the switch or the display that it asks for, a tick of the clock, an exception,
-- or a system call. An `execute` has a program that calls it; the interrupts that a `read` waits for
-- are those that do not start, end or switch programs.
pub data Step (k k' : Kernel) : Type 0 where
  presses :
      (m : Setting) (key : ℕ) (c c' : ℕ × ℕ) (backup backup' : ℕ → ℕ → ℕ) (s : Switched)
      → press m key (record { display = record { kernel = k; backup = backup }; counters = c })
        ≡ some (s, record { display = record { kernel = k'; backup = backup' }; counters = c' })
      → Step k k'
  ticks : k' ≡ record k { rtc = rtc_handler k.rtc } → Step k k'
  traps :
      (stack : ℕ → ℕ) (blank : Dentry) (number cr2 : ℕ) (o : Outcome)
      → exception_handler stack blank number cr2 k ≡ some (o, k')
      → Step k k'
  executes :
      (stack : ℕ → ℕ) (blank : Dentry) (comm : Option (ℕ → ℕ)) (caller : ℕ) (o : Outcome)
      → deref (k.current_process k.curr_terminal) k ≡ some caller
      → execute stack blank comm k ≡ some (o, k')
      → Step k k'
  halts :
      (stack : ℕ → ℕ) (blank : Dentry) (status : ℕ) (o : Outcome)
      → halt stack blank status k ≡ some (o, k')
      → Step k k'
  reads :
      (m : Machine) (fd : ℤ) (buf : Option (ℕ → ℕ)) (nbytes : ℤ) (r : ℤ × Option (ℕ → ℕ))
      → AllKeep m.waits
      → read m fd buf nbytes k ≡ some (r, k')
      → Step k k'
  writes :
      (m : Machine) (fd : ℤ) (buf : Option (ℕ → ℕ)) (nbytes r : ℤ)
      → write m fd buf nbytes k ≡ some (r, k')
      → Step k k'
  opens :
      (m : Machine) (filename : Option (ℕ → ℕ)) (r : ℤ)
      → sys_open m filename k ≡ some (r, k')
      → Step k k'
  closes : (fd r : ℤ) → close fd k ≡ some (r, k') → Step k k'
  asks :
      (buf : Option (ℕ → ℕ)) (nbytes : ℤ) (r : ℤ × Option (ℕ → ℕ))
      → getargs buf nbytes k ≡ some (r, k')
      → Step k k'
  maps :
      (at : Tables) (screen_start : Option ℕ) (r : ℤ × Option ℕ)
      → vidmap at screen_start k ≡ some (r, k')
      → Step k k'

-- Any number of steps.
pub data Run (k : Kernel) : Kernel → Type 0 where
  here : Run k k
  next : {k1 k2 : Kernel} → Run k k1 → Step k1 k2 → Run k k2
