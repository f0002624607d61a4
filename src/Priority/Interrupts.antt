-- ===== src/Priority/Interrupts.antt =====
-- Signals keep the priorities.
use xeros_kernel.Wait.{is_stopped}
use xeros_kernel.Priority.Lists.{
  remove_from_wait_queue-same, make_ready-same, remove_from_block_queue-same,
  remove_from_ready_queue-same,
}
use xeros_kernel.Priority.Sleepers.{remove_from_sleep_queue-keeps}
use xeros_kernel.ReadyQueue.{get_pcb, make_ready}
use xeros_kernel.Sleep.{remove_from_sleep_queue}
use xeros_kernel.Priority.{SamePriorities, KeepsPriorities}
use xeros_kernel.Signals.{sig_table_size, sig_fail, sig_not_exists, sig_ok, Machine, deliver}
use xeros_kernel.Interrupt.{
  is_off, cut_short, sys_ok, remove_from_queue, signal, signal_process, interrupt, remove_by_state,
}
use xeros_kernel.Process.{
  null, running, stopped, dev_block, waiting, blocked, ready, sleep, store, Ptr, Kernel, ProcState,
  Pcbs,
}
use mathlib.Core.Option
use xeros_kernel.Base.{
  ◌-◌, ltb, ◌||◌, is_neg, ◌==◌, bit_set, not, bit_on, refl, ◌∙◌, false, arith, true, none,
  if◌then◌else◌, some, Bool, Option, ℕ,
}

-- As `KeepsPriorities`, of an operation that returns a value too.
abbrev pub KeepsBoth : Pcbs → Option (ℕ × Kernel) → Type 0
KeepsBoth t none = Unit {0}
KeepsBoth t (some (_, k)) = SamePriorities t k.pcbs

KeepsBoth-if :
    (t : Pcbs) (b : Bool) (o p : Option (ℕ × Kernel))
    → KeepsBoth t o
    → KeepsBoth t p
    → KeepsBoth t (if b then o else p)
KeepsBoth-if t true o p k l = k
KeepsBoth-if t false o p k l = l

remove_by_state-keeps :
    (s : ProcState) (f : ℕ) (pcb : Ptr) (k : Kernel) → KeepsBoth k.pcbs (remove_by_state s f pcb k)
unfolding remove_by_state
remove_by_state-keeps sleep f pcb k =
    taken (remove_from_sleep_queue f pcb k) (remove_from_sleep_queue-keeps f pcb k)
  where
    taken :
        (o : Option Kernel)
        → KeepsPriorities k.pcbs o
        → KeepsBoth k.pcbs (Option.map (λ k'. (sys_ok, k')) o)
    taken none s = tt
    taken (some k') s = s
remove_by_state-keeps ready f pcb k = remove_from_ready_queue-same pcb k
remove_by_state-keeps blocked f pcb k = remove_from_block_queue-same pcb k
remove_by_state-keeps waiting f pcb k = remove_from_wait_queue-same pcb k
remove_by_state-keeps dev_block f pcb k = λ p. refl
remove_by_state-keeps stopped f pcb k = λ p. refl
remove_by_state-keeps running f pcb k = λ p. refl

interrupt-keeps :
    (f : ℕ) (target : Ptr) (k : Kernel) → KeepsPriorities k.pcbs (interrupt f target k)
unfolding interrupt remove_from_queue
interrupt-keeps f target k =
    made_ready (remove_by_state (k.pcbs target).state f target k)
      (remove_by_state-keeps (k.pcbs target).state f target k)
  where
    made_ready :
        (o : Option (ℕ × Kernel))
        → KeepsBoth k.pcbs o
        → KeepsPriorities k.pcbs (elim o [
          | none ↦ none
          | some (_, k') ↦
              let c = k'.pcbs target in
              some (
                make_ready target (record k' {
                  pcbs = store k'.pcbs target (record c { rc = cut_short c.state c });
                }))
        ])
    made_ready none s = tt
    made_ready (some (r, k')) s = λ p.
        let c = k'.pcbs target in
        let t = store k'.pcbs target (record c { rc = cut_short c.state c }) in
        make_ready-same target (record k' { pcbs = t }) p ∙ ground arith ∙ s p

deliver-same :
    (m : Machine) (target : Ptr) (g : ℕ) (k : Kernel)
    → SamePriorities k.pcbs (deliver m target g k).pcbs
unfolding deliver
deliver-same m target g k p = ground arith

signal_process-keeps :
    (m : Machine) (f : ℕ) (target : Ptr) (g : ℕ) (k : Kernel)
    → KeepsBoth k.pcbs (signal_process m f target g k)
unfolding signal_process
signal_process-keeps m f target g k =
    KeepsBoth-if k.pcbs (not (bit_set (k.pcbs target).sig_mask g)) (some (sig_ok, noted))
      (if is_off (k.pcbs target).state then woken else some (sig_ok, deliver m target g k))
      (λ p. ground arith)
      (KeepsBoth-if k.pcbs (is_off (k.pcbs target).state) woken
        (some (sig_ok, deliver m target g k))
        (sent (interrupt f target k) (interrupt-keeps f target k)) (deliver-same m target g k))
  where
    noted : Kernel
    noted =
        let c = k.pcbs target in
        record k { pcbs = store k.pcbs target (record c { sig_ignored = bit_on c.sig_ignored g }) }

    woken : Option (ℕ × Kernel)
    woken = Option.map (λ k'. (sig_ok, deliver m target g k')) (interrupt f target k)

    sent :
        (o : Option Kernel)
        → KeepsPriorities k.pcbs o
        → KeepsBoth k.pcbs (Option.map (λ k'. (sig_ok, deliver m target g k')) o)
    sent none s = tt
    sent (some k') s = λ p. deliver-same m target g k' p ∙ s p

pub signal-keeps : (m : Machine) (f pid g : ℕ) (k : Kernel) → KeepsBoth k.pcbs (signal m f pid g k)
unfolding signal
signal-keeps m f pid g k =
    let target = get_pcb k.pcbs pid in
    let c = k.pcbs target in
    let sent = signal_process m f target g k in
    let gone = if is_stopped c.state then some (sig_not_exists, k) else sent in
    let unset = if c.sig_table g == null then some (sig_fail, k) else gone in
    let out = is_neg g || ltb (sig_table_size - 1) g in
    let ranged = if out then some (sig_fail, k) else unset in
    KeepsBoth-if k.pcbs (target == null) (some (sig_not_exists, k)) ranged (λ p. refl)
      (KeepsBoth-if k.pcbs out (some (sig_fail, k)) unset (λ p. refl)
        (KeepsBoth-if k.pcbs (c.sig_table g == null) (some (sig_fail, k)) gone (λ p. refl)
          (KeepsBoth-if k.pcbs (is_stopped c.state) (some (sig_not_exists, k)) sent (λ p. refl)
            (signal_process-keeps m f target g k))))
