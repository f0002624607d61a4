-- ===== src/Process.antt =====
-- The process control block and the tables of h/constants.h, h/pcb.h and c/pcb.c.
pub mod Chain
use xeros_kernel.Base.{◌+◌, ◌*◌, ℕ, ◌≡◌, Bool, true, false, ◌==◌, if◌then◌else◌, minus}

-- The values of the field `state`: STATE_STOPPED to STATE_WAITING, and DEV_BLOCK.
pub data ProcState : Type 0 where
  stopped running ready blocked sleep waiting dev_block : ProcState

-- A `pcb_t *`: NULL is 0, and `&pcbTable[i]` is i + 1. The kernel runs unpaged, so an access
-- through NULL is no fault: it reaches the bytes at address 0, here the entry 0 of the table.
abbrev pub Ptr : Type 0
Ptr = ℕ

abbrev pub null : Ptr
null = 0

-- HOLESTART and HOLEEND of h/i386.h.
abbrev pub hole_start : ℕ
hole_start = 640 * 1024

abbrev pub hole_end : ℕ
hole_end = (1024 + 600) * 1024

-- `struct process_control_block`.
pub record Pcb : Type 0 where
  pub pid : ℕ
  pub state : ProcState
  pub rc : ℕ
  pub priority : ℕ
  pub sem_no : ℕ
  pub sig_mask : ℕ
  pub sig_ignored : ℕ
  pub bufflen : ℕ
  pub buf : ℕ
  pub cpu_time : ℕ
  pub tick : ℕ
  pub esp : ℕ
  pub addr_start : ℕ
  pub args : ℕ
  pub next : Ptr
  pub prev : Ptr
  pub wait_head : Ptr
  pub wait_tail : Ptr
  pub waiting_on : Ptr
  pub sig_table : ℕ → ℕ
  pub fdt : ℕ → ℕ

-- What `memset` to 0 leaves.
abbrev pub zero_pcb : Pcb
zero_pcb = record {
  pid = 0;
  state = stopped;
  rc = 0;
  priority = 0;
  sem_no = 0;
  sig_mask = 0;
  sig_ignored = 0;
  bufflen = 0;
  buf = 0;
  cpu_time = 0;
  tick = 0;
  esp = 0;
  addr_start = 0;
  args = 0;
  next = null;
  prev = null;
  wait_head = null;
  wait_tail = null;
  waiting_on = null;
  sig_table = λ _. 0;
  fdt = λ _. 0;
}

-- The memory that pcb pointers reach.
abbrev pub Pcbs : Type 0
Pcbs = Ptr → Pcb

-- `*p = c`.
abbrev pub store : Pcbs → Ptr → Pcb → Pcbs
store t p c a = if a == p then c else t a

-- `p->next = q`, and so on.
abbrev pub set_next : Pcbs → Ptr → Ptr → Pcbs
set_next t p q = store t p (record (t p) { next = q })

abbrev pub set_prev : Pcbs → Ptr → Ptr → Pcbs
set_prev t p q = store t p (record (t p) { prev = q })

abbrev pub set_state : Pcbs → Ptr → ProcState → Pcbs
set_state t p s = store t p (record (t p) { state = s })

abbrev pub set_tick : Pcbs → Ptr → ℕ → Pcbs
set_tick t p n = store t p (record (t p) { tick = n })

-- `pcb->next = NULL; pcb->prev = NULL; pcb->state = s`.
abbrev pub detach : Pcbs → Ptr → ProcState → Pcbs
detach t p s = store t p (record (t p) { next = null; prev = null; state = s })

abbrev pub pq_size : ℕ
pq_size = 4

abbrev pub pcb_table_size : ℕ
pcb_table_size = 64

-- The arrays `head[PQ_SIZE]` and `tail[PQ_SIZE]`, of the ready queue and of each semaphore.
pub record PrioQueue : Type 0 where
  pub head : ℕ → Ptr
  pub tail : ℕ → Ptr

abbrev pub put : (ℕ → Ptr) → ℕ → Ptr → ℕ → Ptr
put f i p j = if j == i then p else f j

abbrev pub no_queue : PrioQueue
no_queue = record { head = λ _. null; tail = λ _. null }

-- `struct semaphore`.
pub record Semaphore : Type 0 where
  pub value : ℕ
  pub queue : PrioQueue

-- The statics of the process modules: `pcbTable`, `head` and `tail`, `idle_pcb` and `pcb_id` of
-- c/pcb.c, `semaphores` of c/sem.c, and the delta list `dl` of c/sleep.c; and the 32-bit words of
-- memory, by address.
pub record Kernel : Type 0 where
  pub pcbs : Pcbs
  pub ready_queue : PrioQueue
  pub idle_pcb : Ptr
  pub pcb_id : ℕ
  pub semaphores : ℕ → Semaphore
  pub dl : Ptr
  pub words : ℕ → ℕ
