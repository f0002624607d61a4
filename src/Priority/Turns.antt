-- ===== src/Priority/Turns.antt =====
-- One turn of the dispatcher keeps every priority below PQ_SIZE.
use xeros_kernel.Priority.Lists.{restore_loop-keeps, make_ready-same}
use xeros_kernel.ReadyQueue.{make_ready}
use xeros_kernel.Semaphores.{failed}
use xeros_kernel.Interrupt.{signal}
use xeros_kernel.Priority.{KeepsPriorities, SamePriorities}
use xeros_kernel.Memory.{kfree, kmalloc, Heap}
use xeros_kernel.Priority.Interrupts.{signal-keeps, KeepsBoth}
use xeros_kernel.Wait.{restore_loop, restore_to_ready_queue}
use xeros_kernel.Priority.Bound.{run_next-bound, SamePriorities-bound, AreBounded, AreIndexes}
use xeros_kernel.Signals.{getsig, sigreturn}
use xeros_kernel.System.{layout_of, with_pcbs, with_kernel, Env, System}
use xeros_kernel.Process.{stopped, detach, store, null, Pcb, Kernel, Ptr}
use xeros_kernel.Dispatch.{run_next, serve_sigreturn, serve_stop}
use xeros_kernel.Create.{
  first_frame, context_size, get_free_pcb_slot, cleanup, new_pcb, create, start_process,
}
use xeros_kernel.Base.{
  ◌+◌, arith, ◌==◌, false, add32, true, if◌then◌else◌, sub32, none, some, Bool, Option, ℕ,
}

start-bound :
    (e : Env) (pcb : Ptr) (addr func stack : ℕ) (s : System)
    → AreIndexes s.kernel.pcbs
    → AreIndexes (start_process e pcb addr func stack s).1.kernel.pcbs
unfolding start_process new_pcb
start-bound e pcb addr func stack s h =
    let k = s.kernel in
    let frame = sub32 (add32 addr stack) (context_size + 4) in
    let t = store k.pcbs pcb (new_pcb e k.pcb_id frame addr (k.pcbs pcb)) in
    let k' = record k {
      words = first_frame e frame func k.words;
      pcbs = t;
      pcb_id = add32 k.pcb_id 1;
    } in
    SamePriorities-bound t (make_ready pcb k').pcbs (make_ready-same pcb k')
      (λ p. ground (arith, h p))

-- The state of a call that returns a value, if it ends.
abbrev pub AreReturned : Option (ℕ × System) → Type 0
AreReturned none = Unit {0}
AreReturned (some (_, s)) = AreIndexes s.kernel.pcbs

AreReturned-if :
    (b : Bool) (x y : ℕ × System)
    → AreIndexes x.1.kernel.pcbs
    → AreIndexes y.1.kernel.pcbs
    → AreReturned (if b then some x else some y)
AreReturned-if true x y k l = k
AreReturned-if false x y k l = l

pub create-bound :
    (e : Env) (f func stack : ℕ) (s : System)
    → AreIndexes s.kernel.pcbs
    → AreReturned (create e f func stack s)
unfolding create
create-bound e f func stack s h =
    either (get_free_pcb_slot s.kernel.pcbs == null) (kmalloc f stack s.heap)
  where
    pcb : Ptr
    pcb = get_free_pcb_slot s.kernel.pcbs

    started :
        (o : Option (ℕ × Heap))
        → AreReturned (elim o [
          | none ↦ none
          | some (addr, g) ↦
              if addr == null
              then some (failed, record s { heap = g })
              else some (start_process e pcb addr func stack (record s { heap = g }))
        ])
    started none = tt
    started (some (addr, g)) =
        AreReturned-if (addr == null) (failed, record s { heap = g })
          (start_process e pcb addr func stack (record s { heap = g })) h
          (start-bound e pcb addr func stack (record s { heap = g }) h)

    either :
        (b : Bool) (o : Option (ℕ × Heap))
        → AreReturned (
            if b then some (failed, s) else elim o [
              | none ↦ none
              | some (addr, g) ↦
                  if addr == null
                  then some (failed, record s { heap = g })
                  else some (start_process e pcb addr func stack (record s { heap = g }))
            ])
    either true o = h
    either false o = started o

pub stop-bound :
    (e : Env) (f : ℕ) (pcb : Ptr) (s : System)
    → AreIndexes s.kernel.pcbs
    → AreBounded (serve_stop e f pcb s)
unfolding serve_stop cleanup restore_to_ready_queue
stop-bound e f pcb s h =
    restored (restore_loop f (s.kernel.pcbs pcb).wait_head s.kernel)
      (restore_loop-keeps f (s.kernel.pcbs pcb).wait_head s.kernel)
  where
    cleaned :
        (k : Kernel) (o : Option (Bool × Heap))
        → SamePriorities s.kernel.pcbs k.pcbs
        → AreBounded
            (elim (elim o as (λ _. Option System) [
              | none ↦ none
              | some (_, g) ↦
                  some
                    (record (with_pcbs (with_kernel s k) (detach k.pcbs pcb stopped)) { heap = g })
            ]) [ none ↦ none | some s' ↦ some (run_next s') ])
    cleaned k none same = tt
    cleaned k (some (_, g)) same =
        run_next-bound
          (record (with_pcbs (with_kernel s k) (detach k.pcbs pcb stopped)) { heap = g })
          (λ p. ground (arith, same p, same pcb, h p, h pcb))

    restored :
        (o : Option Kernel)
        → KeepsPriorities s.kernel.pcbs o
        → AreBounded (elim o [
          | none ↦ none
          | some k ↦
              elim (elim (kfree f (layout_of e) (detach k.pcbs pcb stopped pcb).addr_start s.heap)
                as (λ _. Option System) [
                  | none ↦ none
                  | some (_, g) ↦
                      some (record (with_pcbs (with_kernel s k) (detach k.pcbs pcb stopped)) {
                        heap = g;
                      })
                ]) [ none ↦ none | some s' ↦ some (run_next s') ]
        ])
    restored none same = tt
    restored (some k) same =
        cleaned k (kfree f (layout_of e) (detach k.pcbs pcb stopped pcb).addr_start s.heap) same

signalled :
    (pcb : Ptr) (s : System) (o : Option (ℕ × Kernel))
    → AreIndexes s.kernel.pcbs
    → KeepsBoth s.kernel.pcbs o
    → AreBounded (elim o [ none ↦ none | some (_, k) ↦ some (pcb, with_kernel s k) ])
signalled pcb s none h same = tt
signalled pcb s (some (r, k)) h same = SamePriorities-bound s.kernel.pcbs k.pcbs same h

pub sigreturn-bound :
    (e : Env) (f : ℕ) (pcb : Ptr) (a : ℕ) (s : System)
    → AreIndexes s.kernel.pcbs
    → AreBounded (serve_sigreturn e f pcb a s)
unfolding serve_sigreturn sigreturn
sigreturn-bound e f pcb a s h = either (c.sig_ignored == 0)
  where
    k : Kernel
    k = sigreturn pcb a s.kernel

    c : Pcb
    c = k.pcbs pcb

    kept : AreIndexes k.pcbs
    kept p = ground (arith, h p, h pcb)

    either :
        (b : Bool)
        → AreBounded (
            if b
            then some (pcb, with_kernel s k)
            else elim (signal e.machine f c.pid (getsig c.sig_ignored) k) [
              | none ↦ none
              | some (_, k') ↦ some (pcb, with_kernel s k')
            ])
    either true = kept
    either false =
        signalled pcb (with_kernel s k) (signal e.machine f c.pid (getsig c.sig_ignored) k) kept
          (signal-keeps e.machine f c.pid (getsig c.sig_ignored) k)
