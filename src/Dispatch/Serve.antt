-- ===== src/Dispatch/Serve.antt =====
-- The switch of `dispatch` (c/disp.c), one turn of its loop, and what the machine may do.
use xeros_kernel.Devices.{di_ioctl, di_write, di_close, di_open}
use xeros_kernel.Signals.{set_signal}
use xeros_kernel.Sleep.{go_to_sleep}
use xeros_kernel.Interrupt.{signal}
use xeros_kernel.Keyboard.{zero_kbd}
use xeros_kernel.Create.{create}
use xeros_kernel.Memory.{kmeminit}
use xeros_kernel.ReadyQueue.{init_pcb_table, init_ready_queue}
use xeros_kernel.Semaphores.{v_kern, seminit}
use xeros_kernel.Dispatch.{
  serve_read, serve_wait, serve_sigreturn, get_cpu_times, serve_p, serve_setprio, serve_stop,
  run_next, give_up, serve_keyboard, serve_timer, context_saved, Trap,
}
use xeros_kernel.Dispatch.Request.{
  sys_getpid, sys_stop, sys_yield, kbd_int, timer_int, sys_ioctl, no_request, sys_read, sys_write,
  sys_close, sys_open, sys_wait, sys_sigreturn, sys_signal, sys_cputimes, sys_sleep, sys_v, sys_p,
  sys_setprio, sys_kill, sys_puts, sys_create, decode, Request,
}
use xeros_kernel.System.{with_pcbs, with_kernel, layout_of, set_rc, System, Env}
use xeros_kernel.Process.{Ptr}
use xeros_kernel.Base.{none, some, Option, ℕ}

-- `pcb->rc = v; break` with the same process.
abbrev pub returns : Ptr → ℕ → System → Option (Ptr × System)
returns pcb v s = some (pcb, set_rc pcb v s)

-- The switch: the process that runs next, and the state. SYS_PUTS writes to the screen alone.
unfoldable pub serve : Env → ℕ → Option ℕ → Ptr → System → Request → Option (Ptr × System)
serve e f key pcb s timer_int = serve_timer f pcb s
serve e f key pcb s kbd_int = some (pcb, serve_keyboard key s)
serve e f key pcb s (sys_create func stack) = elim (create e f func stack s) [
  | none ↦ none
  | some (rc, s') ↦ returns pcb rc s'
]
serve e f key pcb s sys_yield = some (give_up pcb s)
serve e f key pcb s sys_stop = serve_stop e f pcb s
serve e f key pcb s sys_getpid = returns pcb (s.kernel.pcbs pcb).pid s
serve e f key pcb s (sys_puts str) = some (pcb, s)
serve e f key pcb s (sys_kill pid signum) = elim (signal e.machine f pid signum s.kernel) [
  | none ↦ none
  | some (rc, k) ↦ returns pcb rc (with_kernel s k)
]
serve e f key pcb s (sys_setprio priority) = some (pcb, serve_setprio pcb priority s)
serve e f key pcb s (sys_p n) = some (serve_p pcb n s)
serve e f key pcb s (sys_v n) = let (rc, k) = v_kern n s.kernel in returns pcb rc (with_kernel s k)
serve e f key pcb s (sys_sleep ms) = elim (go_to_sleep f pcb ms s.kernel) [
  | none ↦ none
  | some k ↦ some (run_next (with_kernel s k))
]
serve e f key pcb s (sys_cputimes ps) =
    let (rc, k) = get_cpu_times e.machine pcb ps s.kernel in returns pcb rc (with_kernel s k)
serve e f key pcb s (sys_signal signum handler) =
    let (rc, k) = set_signal e.machine pcb signum handler s.kernel in
    returns pcb rc (with_kernel s k)
serve e f key pcb s (sys_sigreturn a) = serve_sigreturn e f pcb a s
serve e f key pcb s (sys_wait pid) = some (serve_wait pcb pid s)
serve e f key pcb s (sys_open n) =
    let (rc, d, t) = di_open pcb n s.devices s.kernel.pcbs in
    returns pcb rc (record (with_pcbs s t) { devices = d })
serve e f key pcb s (sys_close fd) =
    let (rc, d, t) = di_close pcb fd s.devices s.kernel.pcbs in
    returns pcb rc (record (with_pcbs s t) { devices = d })
serve e f key pcb s (sys_write fd a n) =
    let (rc, d) = di_write e.machine pcb fd a n s.devices s.kernel.pcbs in
    returns pcb rc (record s { devices = d })
serve e f key pcb s (sys_read fd a n) = some (serve_read e pcb fd a n s)
serve e f key pcb s (sys_ioctl fd command ap) =
    let (rc, d) =
      di_ioctl e.machine e.lib pcb fd command ap (s.kernel.words ap) s.devices s.kernel.pcbs in
    returns pcb rc (record s { devices = d })
serve e f key pcb s no_request = some (pcb, s)

-- One turn of the loop of `dispatch`, after the process has trapped.
unfoldable pub dispatch_turn : Env → ℕ → Trap → Ptr → System → Option (Ptr × System)
dispatch_turn e f c pcb s =
    let (number, s') = context_saved c pcb s in
    serve e f c.key pcb s' (decode number s'.kernel.words (s'.kernel.pcbs pcb).args)

-- STACKSIZE of h/xeroskernel.h.
abbrev pub stack_size : ℕ
stack_size = 8192

-- `initproc` of c/init.c up to the loop of `dispatch`, without the interrupt vectors: the idle
-- process, whose function is `idleproc`, is the first to be made, and `root` the second.
unfoldable pub initproc : Env → ℕ → ℕ → ℕ → System → Option (Ptr × System)
initproc e f idleproc root s =
    let k = seminit (init_ready_queue (init_pcb_table s.kernel)) in
    let booted = record s {
      kernel = k;
      heap = kmeminit (layout_of e) s.heap.headers;
      devices = record s.devices { kbd = zero_kbd };
    } in
    elim (create e f idleproc stack_size booted) [
      | none ↦ none
      | some (_, s1) ↦ elim (create e f root stack_size s1) [
        | none ↦ none
        | some (_, s2) ↦ some (run_next s2)
      ]
    ]
