-- ===== src/System.antt =====
-- The whole state of the kernel, and what the code takes from outside it.
use xeros_kernel.Devices.{Devices, Rand}
use xeros_kernel.Memory.{Heap, Layout}
use xeros_kernel.Signals.{Machine}
use xeros_kernel.Process.{store, Ptr, Pcbs, Kernel}
use xeros_kernel.Base.{ℕ}

-- The processes and their lists, the free list, the devices, and the state of the modifier keys.
pub record System : Type 0 where
  pub kernel : Kernel
  pub heap : Heap
  pub devices : Devices
  pub scan : ℕ

-- The machine, the start of free memory, the address of `sysstop`, and the C library's generator.
pub record Env : Type 0 where
  pub machine : Machine
  pub freemem : ℕ
  pub sysstop : ℕ
  pub lib : Rand

abbrev pub layout_of : Env → Layout
layout_of e = record { freemem = e.freemem; maxaddr = e.machine.maxaddr }

abbrev pub with_kernel : System → Kernel → System
with_kernel s k = record s { kernel = k }

abbrev pub with_pcbs : System → Pcbs → System
with_pcbs s t = with_kernel s (record s.kernel { pcbs = t })

-- `pcb->rc = v`.
abbrev pub set_rc : Ptr → ℕ → System → System
set_rc pcb v s = let t = s.kernel.pcbs in with_pcbs s (store t pcb (record (t pcb) { rc = v }))
