-- ===== src/Interrupt/Refused.antt =====
-- `signal` to a process that does not take the signal now.
use xeros_kernel.Wait.{is_stopped}
use xeros_kernel.ReadyQueue.{get_pcb}
use xeros_kernel.Signals.{sig_ok, sig_table_size, Machine}
use xeros_kernel.Interrupt.{signal_process, signal}
use xeros_kernel.Process.{ProcState, stopped, null, store, Kernel, Ptr}
use xeros_kernel.Base.{
  ◌-◌, le→ltb, arith, ◌^◌, refl, lt→leb, ==_ne, some, false, bit_set, ◌<◌, ◌≢◌, ◌≡◌, bit_on, ℕ,
}

-- The kernel with signal g noted as ignored.
abbrev pub noted : Ptr → ℕ → Kernel → Kernel
noted p g k = record k {
  pcbs = store k.pcbs p (record (k.pcbs p) { sig_ignored = bit_on (k.pcbs p).sig_ignored g });
}

not_stopped : (s : ProcState) → s ≢ stopped → is_stopped s ≡ false
not_stopped stopped h = absurd (h refl)
not_stopped _ h = refl

-- For a signal of the table with a handler, to a process that is not stopped and whose mask does
-- not let it through, `signal` returns success, notes the signal in `sig_ignored` and changes
-- nothing else.
signal-masked :
    (m : Machine) (fuel pid g : ℕ) (p : Ptr) (k : Kernel)
    → get_pcb k.pcbs pid ≡ p
    → p ≢ null
    → g < sig_table_size
    → (k.pcbs p).sig_table g ≢ null
    → (k.pcbs p).state ≢ stopped
    → bit_set (k.pcbs p).sig_mask g ≡ false
    → signal m fuel pid g k ≡ some (sig_ok, noted p g k)
unfolding signal signal_process
signal-masked m fuel pid g p k e nz h handler alive masked =
    rw
      (
        e,
        ==_ne p null nz,
        lt→leb (2 ^ 31) g (omega arith),
        le→ltb (sig_table_size - 1) g (omega arith),
        ==_ne ((k.pcbs p).sig_table g) null handler,
        not_stopped (k.pcbs p).state alive,
        masked,
      )
      refl
