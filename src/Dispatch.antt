-- ===== src/Dispatch.antt =====
-- c/disp.c: the dispatcher, and the end of `contextswitch` of c/ctsw.c. What runs between two
-- requests, the process in user mode, is outside the model: a request is what it leaves.
pub mod Request
pub mod Sigreturn
pub mod Serve
pub mod Decode
pub mod RoundRobin
use xeros_kernel.Interrupt.{sys_err, signal}
use xeros_kernel.Create.{cleanup}
use xeros_kernel.Keyboard.{kbdint_handler}
use xeros_kernel.Devices.{di_read}
use xeros_kernel.Sleep.{tick_split, tick}
use xeros_kernel.Wait.{is_stopped, add_to_wait_queue, restore_to_ready_queue}
use xeros_kernel.Semaphores.{succeed, blocked_rc, p_kern}
use xeros_kernel.ReadyQueue.{make_ready, next}
use xeros_kernel.System.{with_pcbs, set_rc, with_kernel, Env, System}
use xeros_kernel.Signals.{getsig, past_end, put_word, sig_fail, in_hole, sigreturn, Machine}
use xeros_kernel.Process.{
  waiting, sleep, blocked, store, dev_block, ready, running, pcb_table_size, stopped, Kernel, Pcbs,
  ProcState, Ptr,
}
use xeros_kernel.Base.{
  zero, ◌^◌, ◌%◌, ◌||◌, ◌*◌, is_neg, sub32, ◌+◌, not, false, some, ◌&&◌, true, ltb, suc, ◌==◌, none,
  Bool, minus, if◌then◌else◌, add32, Option, ℕ,
}

-- What the entry points of c/ctsw.c leave: which of them it was (0 for `int`, 1 for the timer, 2
-- for the keyboard), registers eax and edx, the stack pointer, and the scan code at the ports.
pub record Trap : Type 0 where
  pub interrupt : ℕ
  pub rc : ℕ
  pub args : ℕ
  pub esp : ℕ
  pub key : Option ℕ

-- `contextswitch` after its assembly: the number of the request.
unfoldable pub context_saved : Trap → Ptr → System → ℕ × System
context_saved c pcb s =
    let t = s.kernel.pcbs in
    let kept = record (t pcb) { esp = c.esp; args = c.args } in
    if c.interrupt == 2
    then (0x21, with_pcbs s (store t pcb (record kept { rc = c.rc })))
    else if c.interrupt == 1
    then (0x20, with_pcbs s (store t pcb (record kept { rc = c.rc })))
    else (c.rc, with_pcbs s (store t pcb kept))

-- The values of `state` as numbers.
abbrev pub state_code : ProcState → ℕ
state_code stopped = 0
state_code running = 1
state_code ready = 2
state_code blocked = 3
state_code sleep = 4
state_code waiting = 5
state_code dev_block = minus 2

-- The loop of `getCPUtimes` over the n entries from q on, with `slot` rows filled.
unfoldable pub statuses_from : ℕ → Ptr → ℕ → Ptr → ℕ → Pcbs → (ℕ → ℕ) → ℕ × (ℕ → ℕ)
statuses_from zero q slot p ps t w = (slot, w)
statuses_from (suc n) q slot p ps t w =
    let c = t q in
    let status = if (t p).pid == c.pid then state_code running else state_code c.state in
    let w1 = put_word w (ps + 4 + 4 * slot) c.pid in
    let w2 = put_word w1 (ps + 260 + 4 * slot) status in
    let w3 = put_word w2 (ps + 516 + 4 * slot) ((c.cpu_time * tick_split) % 2 ^ 32) in
    if is_stopped c.state
    then statuses_from n (suc q) slot p ps t w
    else statuses_from n (suc q) (suc slot) p ps t w3

-- `getCPUtimes`: the last row that it has filled.
unfoldable pub get_cpu_times : Machine → Ptr → ℕ → Kernel → ℕ × Kernel
get_cpu_times m p ps k =
    let (rows, w) = statuses_from pcb_table_size 1 0 p ps k.pcbs k.words in
    if in_hole ps
    then (minus 1, k)
    else if past_end m ps
    then (minus 2, k)
    else (sub32 rows 1, record k { words = w })

-- `pcb = next()`.
unfoldable pub run_next : System → Ptr × System
run_next s = let (p, k) = next s.kernel in (p, with_kernel s k)

-- `ready(pcb); pcb = next()`.
unfoldable pub give_up : Ptr → System → Ptr × System
give_up pcb s = run_next (with_kernel s (make_ready pcb s.kernel))

-- SYS_SETPRIO: -1 asks for the priority.
unfoldable pub serve_setprio : Ptr → ℕ → System → System
serve_setprio pcb priority s =
    let t = s.kernel.pcbs in
    let c = t pcb in
    if (ltb 3 priority && not (is_neg priority)) || (is_neg priority && ltb priority (minus 1))
    then set_rc pcb sys_err s
    else if priority == minus 1
    then set_rc pcb c.priority s
    else with_pcbs s (store t pcb (record c { rc = c.priority; priority = priority }))

-- SYS_P: a process that is blocked has the result of success when it runs again.
unfoldable pub serve_p : Ptr → ℕ → System → Ptr × System
serve_p pcb n s =
    let (rc, k) = p_kern n pcb s.kernel in
    if rc == blocked_rc
    then run_next (set_rc pcb succeed (with_kernel s k))
    else (pcb, set_rc pcb rc (with_kernel s k))

-- SYS_STOP.
unfoldable pub serve_stop : Env → ℕ → Ptr → System → Option (Ptr × System)
serve_stop e f pcb s = elim (restore_to_ready_queue f pcb s.kernel) [
  | none ↦ none
  | some k ↦ elim (cleanup e f pcb (with_kernel s k)) [ none ↦ none | some s' ↦ some (run_next s') ]
]

-- TIMER_INT.
unfoldable pub serve_timer : ℕ → Ptr → System → Option (Ptr × System)
serve_timer f pcb s = elim (tick f s.kernel) [
  | none ↦ none
  | some k ↦
      let c = k.pcbs pcb in
      let t = store k.pcbs pcb (record c { cpu_time = add32 c.cpu_time 1 }) in
      some (give_up pcb (with_kernel s (record k { pcbs = t })))
]

-- SYS_SIGRETURN: then the highest signal that was ignored is sent again.
unfoldable pub serve_sigreturn : Env → ℕ → Ptr → ℕ → System → Option (Ptr × System)
serve_sigreturn e f pcb a s =
    let k = sigreturn pcb a s.kernel in
    let c = k.pcbs pcb in
    if c.sig_ignored == 0
    then some (pcb, with_kernel s k)
    else elim (signal e.machine f c.pid (getsig c.sig_ignored) k) [
      | none ↦ none
      | some (_, k') ↦ some (pcb, with_kernel s k')
    ]

-- SYS_WAIT.
unfoldable pub serve_wait : Ptr → ℕ → System → Ptr × System
serve_wait pcb pid s =
    let (rc, k) = add_to_wait_queue pcb pid s.kernel in
    let s' = set_rc pcb rc (with_kernel s k) in if rc == sig_fail then (pcb, s') else run_next s'

abbrev pub is_dev_block : ProcState → Bool
is_dev_block dev_block = true
is_dev_block _ = false

-- SYS_READ.
unfoldable pub serve_read : Env → Ptr → ℕ → ℕ → ℕ → System → Ptr × System
serve_read e pcb fd a n s =
    let (rc, d, t) = di_read e.machine e.lib pcb fd a n s.devices s.kernel.pcbs in
    let s' = set_rc pcb rc (record (with_pcbs s t) { devices = d }) in
    if is_dev_block (s'.kernel.pcbs pcb).state then run_next s' else (pcb, s')

-- KBD_INT.
unfoldable pub serve_keyboard : Option ℕ → System → System
serve_keyboard key s =
    let (scan, kbd, m, k) = kbdint_handler key s.scan s.devices.kbd s.devices.bytes s.kernel in
    record s { kernel = k; scan = scan; devices = record s.devices { kbd = kbd; bytes = m } }
