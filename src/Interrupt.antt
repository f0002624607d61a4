-- ===== src/Interrupt.antt =====
-- `removeFromQueue` of c/pcb.c and `signal` of c/signal.c, which take a process off whatever list
-- it is in. The walk along the delta list takes fuel.
pub mod Refused
use xeros_kernel.Wait.{is_stopped, remove_from_wait_queue}
use xeros_kernel.Semaphores.{remove_from_block_queue}
use xeros_kernel.ReadyQueue.{make_ready, remove_from_ready_queue, get_pcb}
use xeros_kernel.Sleep.{tick_split, remove_from_sleep_queue}
use xeros_kernel.Signals.{
  sig_fail, sig_table_size, deliver, sig_not_exists, sig_ok, sig_eintr, Machine,
}
use xeros_kernel.Process.{
  stopped, waiting, dev_block, running, blocked, ready, sleep, store, null, Pcb, Kernel, Ptr,
  ProcState,
}
use mathlib.Core.Option
use xeros_kernel.Base.{
  none, ◌-◌, ltb, ◌||◌, is_neg, bit_set, ◌^◌, ◌==◌, not, ◌%◌, if◌then◌else◌, true, bit_on, ◌*◌,
  false, Bool, minus, ℕ, Option, some,
}

-- SYSOK and SYSERR of h/xeroskernel.h.
abbrev pub sys_ok : ℕ
sys_ok = 0

abbrev pub sys_err : ℕ
sys_err = minus 1

-- The switch of `removeFromQueue`.
unfoldable pub remove_by_state : ProcState → ℕ → Ptr → Kernel → Option (ℕ × Kernel)
remove_by_state sleep fuel pcb k =
    Option.map (λ k'. (sys_ok, k')) (remove_from_sleep_queue fuel pcb k)
remove_by_state ready fuel pcb k = some (sys_ok, remove_from_ready_queue pcb k)
remove_by_state blocked fuel pcb k = some (sys_ok, remove_from_block_queue pcb k)
remove_by_state waiting fuel pcb k = some (sys_ok, remove_from_wait_queue pcb k)
remove_by_state dev_block fuel pcb k = some (sys_ok, k)
remove_by_state stopped fuel pcb k = some (sys_err, k)
remove_by_state running fuel pcb k = some (sys_err, k)

-- `removeFromQueue`.
unfoldable pub remove_from_queue : ℕ → Ptr → Kernel → Option (ℕ × Kernel)
unfolding remove_by_state
remove_from_queue fuel pcb k = remove_by_state (k.pcbs pcb).state fuel pcb k

-- `state != STATE_READY && state != STATE_RUNNING`.
abbrev pub is_off : ProcState → Bool
is_off ready = false
is_off running = false
is_off _ = true

-- The return value of a call that a signal cuts short.
abbrev pub cut_short : ProcState → Pcb → ℕ
cut_short sleep c = (c.tick * tick_split) % 2 ^ 32
cut_short dev_block c = c.rc
cut_short _ c = sig_eintr

-- A target that neither runs nor is ready is taken off its list and made ready.
unfoldable pub interrupt : ℕ → Ptr → Kernel → Option Kernel
unfolding remove_from_queue
interrupt fuel target k = elim (remove_from_queue fuel target k) [
  | none ↦ none
  | some (_, k') ↦
      let c = k'.pcbs target in
      some (
        make_ready target
          (record k' { pcbs = store k'.pcbs target (record c { rc = cut_short c.state c }) }))
]

-- A signal to a process that exists and has a handler for it.
unfoldable pub signal_process : Machine → ℕ → Ptr → ℕ → Kernel → Option (ℕ × Kernel)
unfolding interrupt
signal_process m fuel target signum k =
    let c = k.pcbs target in
    let ignored = record c { sig_ignored = bit_on c.sig_ignored signum } in
    if not (bit_set c.sig_mask signum)
    then some (sig_ok, record k { pcbs = store k.pcbs target ignored })
    else if is_off c.state
    then Option.map (λ k'. (sig_ok, deliver m target signum k')) (interrupt fuel target k)
    else some (sig_ok, deliver m target signum k)

-- `signal`.
unfoldable pub signal : Machine → ℕ → ℕ → ℕ → Kernel → Option (ℕ × Kernel)
unfolding signal_process
signal m fuel pid signum k =
    let target = get_pcb k.pcbs pid in
    if target == null
    then some (sig_not_exists, k)
    else if is_neg signum || ltb (sig_table_size - 1) signum
    then some (sig_fail, k)
    else if (k.pcbs target).sig_table signum == null
    then some (sig_fail, k)
    else if is_stopped (k.pcbs target).state
    then some (sig_not_exists, k)
    else signal_process m fuel target signum k
