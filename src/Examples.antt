-- ===== src/Examples.antt =====
-- Concrete kernels: the theorems applied to them, and runs of the definitions.
pub mod Scheduling
pub mod Blocking
pub mod Sleeping
pub mod Signalling
pub mod Allocating
pub mod Typing
pub mod Booting
pub mod Turns
pub mod Lines
pub mod Files
pub mod Printing
pub mod Starting
pub mod Testing
use xeros_kernel.Signals.Bits.{mask_from}
use xeros_kernel.Semaphores.Lists.{IsSemaphore}
use xeros_kernel.ReadyQueue.Spec.{IsReady}
use xeros_kernel.Process.{null, no_queue, running, zero_pcb, Kernel}
use xeros_kernel.Base.{arith, ◌-◌, refl, [], ℕ}

-- Process i of the table has pid i - 1 and priority 3; nothing waits.
abbrev pub fresh : Kernel
fresh = record {
  pcbs = λ p. record zero_pcb {
    pid = p - 1;
    state = running;
    priority = 3;
    sig_mask = mask_from 0;
    esp = 1000;
    rc = 42;
    sig_table = λ _. 7;
  };
  ready_queue = no_queue;
  idle_pcb = 1;
  pcb_id = 9;
  semaphores = λ _. record { value = 0; queue = no_queue };
  dl = null;
  words = λ _. 0;
}

pub none-IsReady : IsReady fresh (λ _. [])
none-IsReady i h = record {
  chain = refl;
  last = λ nz. absurd (nz refl);
  members = tt;
  distinct = tt;
}

pub none_blocked : IsSemaphore fresh 0 (λ _. [])
none_blocked = record {
  waiting =
      λ i h. record { chain = refl; last = λ nz. absurd (nz refl); members = tt; distinct = tt };
  small = omega arith;
  free = λ ne. absurd (ne refl);
}
