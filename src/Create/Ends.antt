-- ===== src/Create/Ends.antt =====
-- What `create` of c/create.c takes from the free list, and `cleanup` of c/pcb.c gives back.
use xeros_kernel.Create.Inherits.{make_ready-core}
use xeros_kernel.Create.Fresh.{create-eq}
use xeros_kernel.Memory.Free.{kmalloc-kfree}
use xeros_kernel.Memory.{kfree, Heap, is_outside, mem_size}
use xeros_kernel.Memory.Walk.{AllSmall}
use xeros_kernel.Memory.Apart.{IsFree, Apart-drop, Apart-bound}
use xeros_kernel.Create.Stack.{start_process-words, IsBeyond}
use xeros_kernel.Memory.Segment.{Block}
use xeros_kernel.Process.{detach, Ptr, Pcbs, stopped, null, Kernel}
use xeros_kernel.System.{with_pcbs, layout_of, System, Env}
use xeros_kernel.Create.{start_process, cleanup, create, get_free_pcb_slot, fill_slot, new_pcb}
use xeros_kernel.Base.{
  ◌^◌, ◌∙◌, none, ap, Option, true, Bool, arith, some, false, ◌≤◌, ◌<◌, ◌+◌, length, ◌++◌, ◌≢◌,
  refl, ==_self, ◌≡◌, List, ℕ, ◌∷◌,
}

filled-addr_start :
    (e : Env) (p addr func stack : ℕ) (k : Kernel)
    → ((fill_slot e p addr func stack k).pcbs p).addr_start ≡ addr
unfolding new_pcb
filled-addr_start e p addr func stack k = rw (==_self p) refl

cleanup-eq :
    (e : Env) (f p a : ℕ) (b : Bool) (h : Heap) (s : System)
    → (s.kernel.pcbs p).addr_start ≡ a
    → kfree f (layout_of e) a s.heap ≡ some (b, h)
    → cleanup e f p s ≡ some (record (with_pcbs s (detach s.kernel.pcbs p stopped)) { heap = h })
unfolding cleanup
cleanup-eq e f p a b h s start back =
    ap after (ap (λ x. kfree f (layout_of e) x s.heap) place ∙ back)
  where
    after : Option (Bool × Heap) → Option System
    after o = elim o [
      | none ↦ none
      | some (_, h') ↦ some (record (with_pcbs s (detach s.kernel.pcbs p stopped)) { heap = h' })
    ]

    place : (detach s.kernel.pcbs p stopped p).addr_start ≡ a
    place = rw (==_self p) start

detach-stopped : (t : Pcbs) (p : Ptr) → (detach t p stopped p).state ≡ stopped
detach-stopped t p = rw (==_self p) refl

-- If the table has a free slot, the free blocks in front of a are too small for the stack, the one
-- at a has room for it and a header more, its data is in the range of memory, fuel is above the
-- number of blocks in front by two, and the stack has at least 48 bytes, below 2 ^ 31, so that the
-- first frame fits in it, then `create` ends and changes no word outside the block that it gets,
-- `cleanup` of its process ends, the process is stopped and the free list is the old one.
pub cleanup-create :
    (e : Env) (f func stack : ℕ) (s : System) (xs : List Block) (a z : ℕ) (ys : List Block)
    → get_free_pcb_slot s.kernel.pcbs ≢ null
    → IsFree s.heap (xs ++ (a, z) ∷ ys)
    → length xs + 1 < f
    → AllSmall (mem_size stack) xs
    → mem_size stack + 16 ≤ z
    → is_outside (layout_of e) (a + 16) ≡ false
    → 48 ≤ stack
    → stack < 2 ^ 31
    → let p = get_free_pcb_slot s.kernel.pcbs in
      (pid : ℕ) × (s' : System) × (s'' : System) × (create e f func stack s ≡ some (pid, s'))
      × ((b : ℕ) → IsBeyond (a + 16) (mem_size stack) b → s'.kernel.words b ≡ s.kernel.words b)
      × (cleanup e f p s' ≡ some s'')
      × IsFree s''.heap (xs ++ (a, z) ∷ ys)
      × ((s''.kernel.pcbs p).state ≡ stopped)
unfolding start_process
cleanup-create e f func stack s xs a z ys slot free enough small room inside low high =
    let p = get_free_pcb_slot s.kernel.pcbs in
    let (h', h'', got, back, free') =
      kmalloc-kfree f stack (layout_of e) s.heap xs a z ys free enough small room inside in
    let block = Apart-drop 0 xs a z ys free.apart in
    let range : a + 16 + mem_size stack < 2 ^ 32 =
      omega (arith, room, Apart-bound (a + z + 16) ys block.1) in
    let s1 = start_process e p (a + 16) func stack (record s { heap = h' }) in
    (
      s1.0,
      s1.1,
      record (with_pcbs s1.1 (detach s1.1.kernel.pcbs p stopped)) { heap = h'' },
      create-eq e f func stack (a + 16) h' s slot got (λ z. absurd (omega (arith, z))),
      λ b out.
          start_process-words e p (a + 16) func stack b (record s { heap = h' }) low high range out,
      cleanup-eq e f p (a + 16) true h'' s1.1
          (ap (λ c. c.addr_start) (make_ready-core p p (fill_slot e p (a + 16) func stack s.kernel))
            ∙ filled-addr_start e p (a + 16) func stack s.kernel)
          back,
      free',
      detach-stopped s1.1.kernel.pcbs p,
    )
