-- ===== src/ReadyQueue.antt =====
-- c/pcb.c: the ready queue, a doubly linked list for each priority, and the process table. PRINT
-- and FAIL are empty in a build without IS_DEBUG (h/xeroskernel.h), so the code runs on after them.
pub mod Link
pub mod Lists
pub mod Spec
pub mod Pids
use xeros_kernel.Base.{ℕ, zero, suc, ◌+◌, ◌&&◌, ◌==◌, ltb, if◌then◌else◌}
use xeros_kernel.Process.{
  running, ready, Ptr, null, zero_pcb, Pcbs, store, set_next, set_prev, set_state, detach, pq_size,
  pcb_table_size, PrioQueue, put, no_queue, Kernel,
}

-- `initReadyQueue`.
unfoldable pub init_ready_queue : Kernel → Kernel
init_ready_queue k = record k { ready_queue = no_queue }

-- `initPcbTable`: `memset` reaches the entries of the table.
unfoldable pub init_pcb_table : Kernel → Kernel
init_pcb_table k = record k {
  pcbs = λ p. if ltb 0 p && ltb p (pcb_table_size + 1) then zero_pcb else k.pcbs p;
  idle_pcb = 1;
}

-- The first entry that is not NULL, from index n - 1 down: the loop of `next`.
unfoldable pub highest : (ℕ → Ptr) → ℕ → Ptr
highest head zero = null
highest head (suc i) = if head i == null then highest head i else head i

-- `head[i] = head[i]->next`, of `next` and of `unblockProcess` of c/sem.c.
unfoldable pub advance : Pcbs → PrioQueue → ℕ → PrioQueue
advance t q i = record { head = put q.head i (t (q.head i)).next; tail = q.tail }

-- `next`: the process that runs next.
unfoldable pub next : Kernel → Ptr × Kernel
unfolding highest advance
next k =
    let pcb = highest k.ready_queue.head pq_size in
    if pcb == null then (k.idle_pcb, record k { pcbs = set_state k.pcbs k.idle_pcb running }) else (
      pcb,
      record k {
        pcbs = detach k.pcbs pcb running;
        ready_queue = advance k.pcbs k.ready_queue (k.pcbs pcb).priority;
      },
    )

-- The end of `ready`, and of `blockProcess` of c/sem.c: `pcb` goes behind the tail.
unfoldable pub link_last : Pcbs → PrioQueue → ℕ → Ptr → Pcbs × PrioQueue
link_last t q i pcb =
    let t' = set_prev (set_next t (q.tail i) pcb) pcb (q.tail i) in
    if q.head i == null
    then (t, record { head = put q.head i pcb; tail = put q.tail i pcb })
    else (t', record { head = q.head; tail = put q.tail i (t' (q.tail i)).next })

-- `ready`. The idle process, pid 0, stays out of the queue.
unfoldable pub make_ready : Ptr → Kernel → Kernel
unfolding link_last
make_ready pcb k =
    let linked = link_last (detach k.pcbs pcb ready) k.ready_queue (k.pcbs pcb).priority pcb in
    if (k.pcbs pcb).pid == 0
    then record k { pcbs = set_state k.pcbs k.idle_pcb ready }
    else record k { pcbs = linked.0; ready_queue = linked.1 }

-- `getPCB`: the first of the n entries from `pcb` on that has this pid.
unfoldable pub get_pcb_from : Pcbs → ℕ → ℕ → Ptr → Ptr
get_pcb_from t pid zero pcb = null
get_pcb_from t pid (suc n) pcb = if (t pcb).pid == pid then pcb else get_pcb_from t pid n (suc pcb)

unfoldable pub get_pcb : Pcbs → ℕ → Ptr
unfolding get_pcb_from
get_pcb t pid = get_pcb_from t pid pcb_table_size 1

-- `setPriority`.
unfoldable pub set_priority : ℕ → ℕ → Kernel → Kernel
unfolding get_pcb
set_priority pid priority k =
    let pcb = get_pcb k.pcbs pid in
    record k { pcbs = store k.pcbs pcb (record (k.pcbs pcb) { priority = priority }) }

-- The body of `removeFromReadyQueue`, and of `removeFromBlockQueue` of c/sem.c.
unfoldable pub unlink : Pcbs → PrioQueue → Ptr → Pcbs × PrioQueue
unlink t q pcb =
    let c = t pcb in
    if c.prev == null
    then (t, record { head = put q.head c.priority c.next; tail = q.tail })
    else if c.next == null
    then (set_next t c.prev null, record { head = q.head; tail = put q.tail c.priority c.prev })
    else (set_next t c.prev c.next, q)

-- `removeFromReadyQueue`.
unfoldable pub remove_from_ready_queue : Ptr → Kernel → Kernel
unfolding unlink
remove_from_ready_queue pcb k =
    let unlinked = unlink k.pcbs k.ready_queue pcb in
    record k { pcbs = unlinked.0; ready_queue = unlinked.1 }
