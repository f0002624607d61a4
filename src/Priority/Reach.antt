-- ===== src/Priority/Reach.antt =====
-- The states that the kernel reaches: from `initproc`, a turn of the dispatcher after another. In
-- between, a process in user mode writes what it likes to the words and bytes of memory that are
-- not the kernel's.
use xeros_kernel.Priority.Serve.{turn-bound}
use xeros_kernel.Memory.{kmeminit}
use xeros_kernel.ReadyQueue.{init_pcb_table, init_ready_queue}
use xeros_kernel.Semaphores.{seminit}
use xeros_kernel.Create.{create}
use xeros_kernel.Priority.Bound.{run_next-bound, AreBounded, AreIndexes}
use xeros_kernel.Priority.Turns.{create-bound, AreReturned}
use xeros_kernel.Dispatch.Serve.{stack_size, initproc, dispatch_turn}
use xeros_kernel.Process.{pq_size, Kernel, Ptr}
use xeros_kernel.System.{layout_of, System, Env}
use xeros_kernel.Keyboard.{zero_kbd, Bytes}
use xeros_kernel.Dispatch.{run_next, Trap}
use xeros_kernel.Base.{subst, arith, none, some, ◌<◌, ◌≡◌, Option, ℕ}

-- Memory as the process leaves it.
abbrev pub after_user : (ℕ → ℕ) → Bytes → System → System
after_user w m s = record s {
  kernel = record s.kernel { words = w };
  devices = record s.devices { bytes = m };
}

pub data Reaches (e : Env) (f idleproc root : ℕ) (s : System) : Ptr → System → Type 0 where
  booted :
      {p : Ptr} {s' : System}
      → initproc e f idleproc root s ≡ some (p, s')
      → Reaches e f idleproc root s p s'
  turned :
      {p q : Ptr} {s' t : System} (w : ℕ → ℕ) (m : Bytes) (c : Trap)
      → Reaches e f idleproc root s p s'
      → dispatch_turn e f c p (after_user w m s') ≡ some (q, t)
      → Reaches e f idleproc root s q t

create_again :
    (e : Env) (f root : ℕ) (o : Option (ℕ × System))
    → AreReturned o
    → AreBounded (elim o [
      | none ↦ none
      | some (_, s1) ↦ elim (create e f root stack_size s1) [
        | none ↦ none
        | some (_, s2) ↦ some (run_next s2)
      ]
    ])
create_again e f root none h = tt
create_again e f root (some (r, s1)) h =
    made (create e f root stack_size s1) (create-bound e f root stack_size s1 h)
  where
    made :
        (o : Option (ℕ × System))
        → AreReturned o
        → AreBounded (elim o [ none ↦ none | some (_, s2) ↦ some (run_next s2) ])
    made none k = tt
    made (some (r', s2)) k = run_next-bound s2 k

table-bound :
    (k : Kernel)
    → AreIndexes k.pcbs
    → AreIndexes (seminit (init_ready_queue (init_pcb_table k))).pcbs
unfolding seminit init_ready_queue init_pcb_table
table-bound k h p = ground (arith, h p)

initproc-bound :
    (e : Env) (f idleproc root : ℕ) (s : System)
    → AreIndexes s.kernel.pcbs
    → AreBounded (initproc e f idleproc root s)
unfolding initproc
initproc-bound e f idleproc root s h =
    create_again e f root (create e f idleproc stack_size booted_state)
      (create-bound e f idleproc stack_size booted_state cleared)
  where
    booted_state : System
    booted_state = record s {
      kernel = seminit (init_ready_queue (init_pcb_table s.kernel));
      heap = kmeminit (layout_of e) s.heap.headers;
      devices = record s.devices { kbd = zero_kbd };
    }

    cleared : AreIndexes booted_state.kernel.pcbs
    cleared = table-bound s.kernel h

bounded_state :
    (o : Option (Ptr × System)) (p : Ptr) (s : System)
    → AreBounded o
    → o ≡ some (p, s)
    → AreIndexes s.kernel.pcbs
bounded_state o p s h e = subst AreBounded e h

reached-bound :
    (e : Env) (f idleproc root : ℕ) (s : System) (p : Ptr) (s' : System)
    → AreIndexes s.kernel.pcbs
    → Reaches e f idleproc root s p s'
    → AreIndexes s'.kernel.pcbs
reached-bound e f idleproc root s p s' h (booted i) =
    bounded_state (initproc e f idleproc root s) p s' (initproc-bound e f idleproc root s h) i
reached-bound e f idleproc root s p s' h (turned {p = q} {s' = u} w m c r i) =
    bounded_state (dispatch_turn e f c q (after_user w m u)) p s'
      (turn-bound e f c q (after_user w m u) (reached-bound e f idleproc root s q u h r)) i

-- If the priorities that the memory of the table holds at power on are below 4, then in every
-- state that the kernel reaches from `initproc` by turns of the dispatcher, whatever the processes
-- write outside the table and ask for in between, the priority of every entry is below 4.
pub priority-bound :
    (e : Env) (f idleproc root : ℕ) (s : System) (p : Ptr) (s' : System) (a : Ptr)
    → AreIndexes s.kernel.pcbs
    → Reaches e f idleproc root s p s'
    → (s'.kernel.pcbs a).priority < pq_size
priority-bound e f idleproc root s p s' a h r = reached-bound e f idleproc root s p s' h r a
