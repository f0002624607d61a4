-- ===== src/Semaphores.antt =====
-- c/sem.c: two counting semaphores, each with a list of blocked processes for each priority.
pub mod Lists
pub mod Count
pub mod Wake
pub mod Stale
pub mod Exclusion
use xeros_kernel.Base.{
  Bool, ℕ, zero, suc, ◌+◌, ◌≡◌, ◌&&◌, ◌||◌, not, ◌==◌, leb, ltb, if◌then◌else◌, is_neg, minus,
  add32, sub32,
}
use xeros_kernel.Process.{
  blocked, Ptr, null, Pcb, Pcbs, store, detach, pq_size, PrioQueue, put, no_queue, Semaphore,
  Kernel,
}
use xeros_kernel.ReadyQueue.{advance, link_last, unlink, make_ready}

abbrev pub num_semaphores : ℕ
num_semaphores = 2

-- FAILED, SUCCEED and BLOCKED of h/xeroskernel.h.
abbrev pub failed : ℕ
failed = 0

abbrev pub succeed : ℕ
succeed = 1

abbrev pub blocked_rc : ℕ
blocked_rc = minus 1

-- `semNo < 0 || semNo >= NUM_SEMAPHORES`.
abbrev pub no_semaphore : ℕ → Bool
no_semaphore n = is_neg n || leb num_semaphores n

abbrev pub put_semaphore : (ℕ → Semaphore) → ℕ → Semaphore → ℕ → Semaphore
put_semaphore f n sp m = if m == n then sp else f m

-- `seminit`.
unfoldable pub seminit : Kernel → Kernel
seminit k = record k {
  semaphores =
      λ n. if ltb n num_semaphores then record { value = 0; queue = no_queue } else k.semaphores n;
}

-- `blockProcess`.
unfoldable pub block_process : ℕ → Ptr → Kernel → Kernel
block_process n pcb k =
    let sp = k.semaphores n in
    let linked = link_last (detach k.pcbs pcb blocked) sp.queue (k.pcbs pcb).priority pcb in
    record k {
      pcbs = linked.0;
      semaphores = put_semaphore k.semaphores n (record sp { queue = linked.1 });
    }

-- The loop of `unblockProcess`, from index n - 1 down.
unfoldable pub unblock_from : ℕ → Pcbs → PrioQueue → Ptr × PrioQueue
unblock_from zero t q = (null, q)
unblock_from (suc i) t q =
    if q.head i == null then unblock_from i t q else (q.head i, advance t q i)

-- `unblockProcess`.
unfoldable pub unblock_process : ℕ → Kernel → Ptr × Kernel
unfolding unblock_from
unblock_process n k =
    let sp = k.semaphores n in
    let taken = unblock_from pq_size k.pcbs sp.queue in
    (
      taken.0,
      record k { semaphores = put_semaphore k.semaphores n (record sp { queue = taken.1 }) },
    )

-- `P_kern`.
unfoldable pub p_kern : ℕ → Ptr → Kernel → ℕ × Kernel
unfolding block_process
p_kern n pcb k =
    let sp = k.semaphores n in
    let k' = block_process n pcb k in
    if no_semaphore n
    then (failed, k)
    else if sp.value == 0
    then (blocked_rc, record k' { pcbs = store k'.pcbs pcb (record (k'.pcbs pcb) { sem_no = n }) })
    else if ltb 0 sp.value && not (is_neg sp.value)
    then (
      succeed,
      record k {
        semaphores = put_semaphore k.semaphores n (record sp { value = sub32 sp.value 1 });
      },
    )
    else (failed, k)

-- `V_kern`.
unfoldable pub v_kern : ℕ → Kernel → ℕ × Kernel
unfolding unblock_process
v_kern n k =
    let (pcb, k') = unblock_process n k in
    let sp = k'.semaphores n in
    if no_semaphore n
    then (failed, k)
    else if pcb == null
    then (
      succeed,
      record k' {
        semaphores = put_semaphore k'.semaphores n (record sp { value = add32 sp.value 1 });
      },
    )
    else (succeed, make_ready pcb k')

-- `removeFromBlockQueue`.
unfoldable pub remove_from_block_queue : Ptr → Kernel → Kernel
remove_from_block_queue pcb k =
    let n = (k.pcbs pcb).sem_no in
    let sp = k.semaphores n in
    let unlinked = unlink k.pcbs sp.queue pcb in
    if no_semaphore n then k else record k {
      pcbs = unlinked.0;
      semaphores = put_semaphore k.semaphores n (record sp { queue = unlinked.1 });
    }
