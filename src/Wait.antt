-- ===== src/Wait.antt =====
-- c/signal.c: processes that wait for another one to stop, in a list of that process.
pub mod Restore
pub mod Overwrite
use xeros_kernel.Signals.{sig_ok, sig_fail}
use xeros_kernel.ReadyQueue.{make_ready, get_pcb}
use xeros_kernel.Process.{
  stopped, set_prev, store, null, waiting, set_next, detach, Kernel, Ptr, ProcState,
}
use xeros_kernel.Base.{zero, some, suc, ◌==◌, none, if◌then◌else◌, false, Option, true, Bool, ℕ}

abbrev pub is_stopped : ProcState → Bool
is_stopped stopped = true
is_stopped _ = false

-- The end of `addToWaitQueue`. It sets `wait_tail` to itself, so the tail never moves on.
unfoldable pub join_waiters : Ptr → Ptr → Kernel → Kernel
join_waiters pcb target k =
    let t = detach k.pcbs pcb waiting in
    let t = store t pcb (record (t pcb) { waiting_on = target }) in
    let tail = (t target).wait_tail in
    if (t target).wait_head == null
    then record k { pcbs = store t target (record (t target) { wait_head = pcb; wait_tail = pcb }) }
    else record k { pcbs = set_prev (set_next t tail pcb) pcb tail }

-- `addToWaitQueue`.
unfoldable pub add_to_wait_queue : Ptr → ℕ → Kernel → ℕ × Kernel
unfolding join_waiters
add_to_wait_queue pcb pid k =
    let target = get_pcb k.pcbs pid in
    if pid == 0
    then (sig_fail, k)
    else if (k.pcbs pcb).pid == pid
    then (sig_fail, k)
    else if target == null
    then (sig_fail, k)
    else if is_stopped (k.pcbs target).state
    then (sig_fail, k)
    else (sig_ok, join_waiters pcb target k)

-- `removeFromWaitQueue`. The check at its start only reports.
unfoldable pub remove_from_wait_queue : Ptr → Kernel → Kernel
remove_from_wait_queue pcb k =
    let c = k.pcbs pcb in
    let target = c.waiting_on in
    let t = set_next k.pcbs c.prev null in
    if c.prev == null
    then record k { pcbs = store k.pcbs target (record (k.pcbs target) { wait_head = c.next }) }
    else if c.next == null
    then record k { pcbs = store t target (record (t target) { wait_tail = (t pcb).prev }) }
    else record k { pcbs = set_next k.pcbs c.prev c.next }

-- The loop of `restoreToReadyQueue`: it reads `p->next` after `ready(p)`.
unfoldable pub restore_loop : ℕ → Ptr → Kernel → Option Kernel
restore_loop zero p k = none
restore_loop (suc f) p k =
    let k' = make_ready p k in
    let rest = restore_loop f (k'.pcbs p).next k' in if p == null then some k else rest

-- `restoreToReadyQueue`.
unfoldable pub restore_to_ready_queue : ℕ → Ptr → Kernel → Option Kernel
restore_to_ready_queue fuel pcb k = restore_loop fuel (k.pcbs pcb).wait_head k
