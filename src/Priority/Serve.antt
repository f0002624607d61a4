-- ===== src/Priority/Serve.antt =====
-- The requests of c/disp.c keep the priorities in range.
use xeros_kernel.Priority.Devices.{kbdint_handler-same, di_close-same, di_open-same}
use xeros_kernel.Devices.{di_ioctl, di_write, di_close, di_open}
use xeros_kernel.Priority.Sleepers.{go_to_sleep-keeps}
use xeros_kernel.Sleep.{go_to_sleep}
use xeros_kernel.Priority.Lists.{v_kern-same}
use xeros_kernel.Semaphores.{v_kern}
use xeros_kernel.Interrupt.{signal}
use xeros_kernel.Create.{create}
use xeros_kernel.Priority.{SamePriorities, KeepsPriorities}
use xeros_kernel.Priority.Interrupts.{signal-keeps, KeepsBoth}
use xeros_kernel.Priority.Bound.{
  read-bound, wait-bound, p-bound, setprio-bound, give_up-bound, run_next-bound,
  SamePriorities-bound, set_rc-bound, context_saved-bound, timer-bound, AreBounded, AreIndexes,
}
use xeros_kernel.Priority.Turns.{sigreturn-bound, stop-bound, create-bound, AreReturned}
use xeros_kernel.Dispatch.Serve.{returns, serve, dispatch_turn}
use xeros_kernel.Signals.{Machine, set_signal}
use xeros_kernel.Process.{Kernel, Ptr}
use xeros_kernel.System.{with_pcbs, with_kernel, System, Env}
use xeros_kernel.Keyboard.{kbdint_handler}
use xeros_kernel.Dispatch.{serve_keyboard, run_next, context_saved, Trap, get_cpu_times}
use xeros_kernel.Dispatch.Request.{
  sys_yield, kbd_int, timer_int, sys_read, sys_write, sys_close, sys_open, sys_wait, sys_sigreturn,
  sys_signal, sys_cputimes, sys_sleep, sys_v, sys_p, sys_kill, sys_puts, sys_create, sys_setprio,
  decode, Request, sys_stop, sys_getpid, sys_ioctl, no_request,
}
use xeros_kernel.Base.{refl, arith, none, ◌^◌, some, ◌<◌, ◌≡◌, Option, ℕ}

returned :
    (pcb : Ptr) (s : System) (o : Option (ℕ × System))
    → AreReturned o
    → AreBounded (elim o [ none ↦ none | some (rc, s') ↦ returns pcb rc s' ])
returned pcb s none h = tt
returned pcb s (some (rc, s')) h = set_rc-bound pcb rc s' h

killed :
    (pcb : Ptr) (s : System) (o : Option (ℕ × Kernel))
    → AreIndexes s.kernel.pcbs
    → KeepsBoth s.kernel.pcbs o
    → AreBounded (elim o [ none ↦ none | some (rc, k) ↦ returns pcb rc (with_kernel s k) ])
killed pcb s none h same = tt
killed pcb s (some (rc, k)) h same =
    set_rc-bound pcb rc (with_kernel s k) (SamePriorities-bound s.kernel.pcbs k.pcbs same h)

slept :
    (s : System) (o : Option Kernel)
    → AreIndexes s.kernel.pcbs
    → KeepsPriorities s.kernel.pcbs o
    → AreBounded (elim o [ none ↦ none | some k ↦ some (run_next (with_kernel s k)) ])
slept s none h same = tt
slept s (some k) h same =
    run_next-bound (with_kernel s k) (SamePriorities-bound s.kernel.pcbs k.pcbs same h)

get_cpu_times-same :
    (m : Machine) (pcb : Ptr) (ps : ℕ) (k : Kernel)
    → SamePriorities k.pcbs (get_cpu_times m pcb ps k).1.pcbs
unfolding get_cpu_times
get_cpu_times-same m pcb ps k p = ground arith

set_signal-same :
    (m : Machine) (pcb : Ptr) (g a : ℕ) (k : Kernel)
    → SamePriorities k.pcbs (set_signal m pcb g a k).1.pcbs
unfolding set_signal
set_signal-same m pcb g a k p = ground arith

keyboard-bound :
    (key : Option ℕ) (s : System)
    → AreIndexes s.kernel.pcbs
    → AreIndexes (serve_keyboard key s).kernel.pcbs
unfolding serve_keyboard
keyboard-bound key s h =
    let r = kbdint_handler key s.scan s.devices.kbd s.devices.bytes s.kernel in
    SamePriorities-bound s.kernel.pcbs r.3.pcbs
      (kbdint_handler-same key s.scan s.devices.kbd s.devices.bytes s.kernel) h

-- A priority that is asked for is a word.
abbrev IsRequest : Request → Type 0
IsRequest r = (priority : ℕ) → r ≡ sys_setprio priority → priority < 2 ^ 32

module _ (e : Env) (f : ℕ) (key : Option ℕ) (pcb : Ptr) (s : System) where
  serve-bound :
      (r : Request) → IsRequest r → AreIndexes s.kernel.pcbs → AreBounded (serve e f key pcb s r)
  unfolding serve
  serve-bound timer_int i h = timer-bound f pcb s h
  serve-bound kbd_int i h = keyboard-bound key s h
  serve-bound (sys_create func stack) i h =
      returned pcb s (create e f func stack s) (create-bound e f func stack s h)
  serve-bound sys_yield i h = give_up-bound pcb s h
  serve-bound sys_stop i h = stop-bound e f pcb s h
  serve-bound sys_getpid i h = set_rc-bound pcb (s.kernel.pcbs pcb).pid s h
  serve-bound (sys_puts str) i h = h
  serve-bound (sys_kill pid g) i h =
      killed pcb s (signal e.machine f pid g s.kernel) h (signal-keeps e.machine f pid g s.kernel)
  serve-bound (sys_setprio priority) i h = setprio-bound pcb priority s (i priority refl) h
  serve-bound (sys_p n) i h = p-bound pcb n s h
  serve-bound (sys_v n) i h = killed pcb s (some (v_kern n s.kernel)) h (v_kern-same n s.kernel)
  serve-bound (sys_sleep ms) i h =
      slept s (go_to_sleep f pcb ms s.kernel) h (go_to_sleep-keeps f pcb ms s.kernel)
  serve-bound (sys_cputimes ps) i h =
      killed pcb s (some (get_cpu_times e.machine pcb ps s.kernel)) h
        (get_cpu_times-same e.machine pcb ps s.kernel)
  serve-bound (sys_signal g a) i h =
      killed pcb s (some (set_signal e.machine pcb g a s.kernel)) h
        (set_signal-same e.machine pcb g a s.kernel)
  serve-bound (sys_sigreturn a) i h = sigreturn-bound e f pcb a s h
  serve-bound (sys_wait pid) i h = wait-bound pcb pid s h
  serve-bound (sys_open n) i h =
      let r = di_open pcb n s.devices s.kernel.pcbs in
      set_rc-bound pcb r.0 (record (with_pcbs s r.2) { devices = r.1 })
        (SamePriorities-bound s.kernel.pcbs r.2 (di_open-same pcb n s.devices s.kernel.pcbs) h)
  serve-bound (sys_close fd) i h =
      let r = di_close pcb fd s.devices s.kernel.pcbs in
      set_rc-bound pcb r.0 (record (with_pcbs s r.2) { devices = r.1 })
        (SamePriorities-bound s.kernel.pcbs r.2 (di_close-same pcb fd s.devices s.kernel.pcbs) h)
  serve-bound (sys_write fd a n) i h =
      let r = di_write e.machine pcb fd a n s.devices s.kernel.pcbs in
      set_rc-bound pcb r.0 (record s { devices = r.1 }) h
  serve-bound (sys_read fd a n) i h = read-bound e pcb fd a n s h
  serve-bound (sys_ioctl fd command ap) i h =
      let r =
        di_ioctl e.machine e.lib pcb fd command ap (s.kernel.words ap) s.devices s.kernel.pcbs in
      set_rc-bound pcb r.0 (record s { devices = r.1 }) h
  serve-bound no_request i h = h

decode-IsRequest : (n : ℕ) (w : ℕ → ℕ) (a : ℕ) → IsRequest (decode n w a)
unfolding decode
decode-IsRequest n w a = λ p e. ground arith

pub turn-bound :
    (e : Env) (f : ℕ) (c : Trap) (pcb : Ptr) (s : System)
    → AreIndexes s.kernel.pcbs
    → AreBounded (dispatch_turn e f c pcb s)
unfolding dispatch_turn
turn-bound e f c pcb s h =
    let r = context_saved c pcb s in
    serve-bound e f c.key pcb r.1 (decode r.0 r.1.kernel.words (r.1.kernel.pcbs pcb).args)
      (decode-IsRequest r.0 r.1.kernel.words (r.1.kernel.pcbs pcb).args)
      (context_saved-bound c pcb s h)
