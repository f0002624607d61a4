-- ===== src/Priority/Bound.antt =====
-- Every priority is an index of the arrays, in all states that the kernel reaches.
use xeros_kernel.Priority.Sleepers.{tick-keeps}
use xeros_kernel.Sleep.{tick}
use xeros_kernel.Priority.Devices.{di_read-same}
use xeros_kernel.Signals.{sig_fail}
use xeros_kernel.Devices.{di_read, Devices}
use xeros_kernel.Wait.{add_to_wait_queue}
use xeros_kernel.Semaphores.{succeed, blocked_rc, p_kern}
use xeros_kernel.Priority.Lists.{add_to_wait_queue-same, p_kern-same, make_ready-same, next-same}
use xeros_kernel.ReadyQueue.{make_ready, next}
use xeros_kernel.System.{with_pcbs, Env, with_kernel, set_rc, System}
use xeros_kernel.Priority.{KeepsPriorities, SamePriorities}
use xeros_kernel.Dispatch.{
  is_dev_block, serve_timer, serve_read, serve_wait, serve_p, Trap, serve_setprio, context_saved,
  give_up, run_next,
}
use xeros_kernel.Process.{store, Kernel, pq_size, Ptr, Pcbs}
use xeros_kernel.Base.{
  add32, ◌==◌, false, true, if◌then◌else◌, ◌^◌, Bool, none, some, arith, ◌<◌, Option, ℕ,
}

-- Every priority is below PQ_SIZE.
abbrev pub AreIndexes : Pcbs → Type 0
AreIndexes t = (p : Ptr) → (t p).priority < pq_size

pub SamePriorities-bound : (t u : Pcbs) → SamePriorities t u → AreIndexes t → AreIndexes u
SamePriorities-bound t u s h p = omega (arith, s p, h p)

-- The state of a turn, if the turn ends.
abbrev pub AreBounded : Option (Ptr × System) → Type 0
AreBounded none = Unit {0}
AreBounded (some (_, s)) = AreIndexes s.kernel.pcbs

abbrev AreKept : Option System → Type 0
AreKept none = Unit {0}
AreKept (some s) = AreIndexes s.kernel.pcbs

if-bound :
    (b : Bool) (x y : Ptr × System)
    → AreIndexes x.1.kernel.pcbs
    → AreIndexes y.1.kernel.pcbs
    → AreIndexes (if b then x else y).1.kernel.pcbs
if-bound true x y k l = k
if-bound false x y k l = l

pub set_rc-bound :
    (pcb : Ptr) (v : ℕ) (s : System)
    → AreIndexes s.kernel.pcbs
    → AreIndexes (set_rc pcb v s).kernel.pcbs
set_rc-bound pcb v s h p = ground (arith, h p, h pcb)

pub run_next-bound : (s : System) → AreIndexes s.kernel.pcbs → AreIndexes (run_next s).1.kernel.pcbs
unfolding run_next
run_next-bound s = SamePriorities-bound s.kernel.pcbs (next s.kernel).1.pcbs (next-same s.kernel)

pub give_up-bound :
    (pcb : Ptr) (s : System) → AreIndexes s.kernel.pcbs → AreIndexes (give_up pcb s).1.kernel.pcbs
unfolding give_up
give_up-bound pcb s h = run_next-bound (with_kernel s (make_ready pcb s.kernel)) (
    SamePriorities-bound s.kernel.pcbs (make_ready pcb s.kernel).pcbs (make_ready-same pcb s.kernel)
      h)

pub context_saved-bound :
    (c : Trap) (pcb : Ptr) (s : System)
    → AreIndexes s.kernel.pcbs
    → AreIndexes (context_saved c pcb s).1.kernel.pcbs
unfolding context_saved
context_saved-bound c pcb s h p = ground (arith, h p, h pcb)

pub setprio-bound :
    (pcb : Ptr) (priority : ℕ) (s : System)
    → priority < 2 ^ 32
    → AreIndexes s.kernel.pcbs
    → AreIndexes (serve_setprio pcb priority s).kernel.pcbs
unfolding serve_setprio
setprio-bound pcb priority s small h p = ground (arith, h p, h pcb)

pub p-bound :
    (pcb : Ptr) (n : ℕ) (s : System)
    → AreIndexes s.kernel.pcbs
    → AreIndexes (serve_p pcb n s).1.kernel.pcbs
unfolding serve_p
p-bound pcb n s h =
    if-bound (r.0 == blocked_rc) (run_next (set_rc pcb succeed s')) (pcb, set_rc pcb r.0 s')
      (run_next-bound (set_rc pcb succeed s') (set_rc-bound pcb succeed s' kept))
      (set_rc-bound pcb r.0 s' kept)
  where
    r : ℕ × Kernel
    r = p_kern n pcb s.kernel

    s' : System
    s' = with_kernel s r.1

    kept : AreIndexes r.1.pcbs
    kept = SamePriorities-bound s.kernel.pcbs r.1.pcbs (p_kern-same n pcb s.kernel) h

pub wait-bound :
    (pcb : Ptr) (pid : ℕ) (s : System)
    → AreIndexes s.kernel.pcbs
    → AreIndexes (serve_wait pcb pid s).1.kernel.pcbs
unfolding serve_wait
wait-bound pcb pid s h =
    if-bound (r.0 == sig_fail) (pcb, s') (run_next s') kept (run_next-bound s' kept)
  where
    r : ℕ × Kernel
    r = add_to_wait_queue pcb pid s.kernel

    s' : System
    s' = set_rc pcb r.0 (with_kernel s r.1)

    kept : AreIndexes s'.kernel.pcbs
    kept =
        set_rc-bound pcb r.0 (with_kernel s r.1)
          (SamePriorities-bound s.kernel.pcbs r.1.pcbs (add_to_wait_queue-same pcb pid s.kernel) h)

pub read-bound :
    (e : Env) (pcb : Ptr) (fd a n : ℕ) (s : System)
    → AreIndexes s.kernel.pcbs
    → AreIndexes (serve_read e pcb fd a n s).1.kernel.pcbs
unfolding serve_read
read-bound e pcb fd a n s h =
    if-bound (is_dev_block (s'.kernel.pcbs pcb).state) (run_next s') (pcb, s')
      (run_next-bound s' kept) kept
  where
    r : ℕ × Devices × Pcbs
    r = di_read e.machine e.lib pcb fd a n s.devices s.kernel.pcbs

    s' : System
    s' = set_rc pcb r.0 (record (with_pcbs s r.2) { devices = r.1 })

    kept : AreIndexes s'.kernel.pcbs
    kept =
        set_rc-bound pcb r.0 (record (with_pcbs s r.2) { devices = r.1 })
          (SamePriorities-bound s.kernel.pcbs r.2
            (di_read-same e.machine e.lib pcb fd a n s.devices s.kernel.pcbs) h)

pub timer-bound :
    (f : ℕ) (pcb : Ptr) (s : System) → AreIndexes s.kernel.pcbs → AreBounded (serve_timer f pcb s)
unfolding serve_timer
timer-bound f pcb s h = ticked (tick f s.kernel) (tick-keeps f s.kernel)
  where
    ticked :
        (o : Option Kernel)
        → KeepsPriorities s.kernel.pcbs o
        → AreBounded (elim o [
          | none ↦ none
          | some k ↦
              let c = k.pcbs pcb in
              let t = store k.pcbs pcb (record c { cpu_time = add32 c.cpu_time 1 }) in
              some (give_up pcb (with_kernel s (record k { pcbs = t })))
        ])
    ticked none same = tt
    ticked (some k) same =
        give_up-bound pcb
          (with_kernel s (record k {
            pcbs =
                store k.pcbs pcb (record (k.pcbs pcb) { cpu_time = add32 (k.pcbs pcb).cpu_time 1 });
          }))
          (λ p. ground (arith, same p, same pcb, h p, h pcb))
