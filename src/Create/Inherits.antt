-- ===== src/Create/Inherits.antt =====
-- What c/create.c leaves of the process that had the slot before.
use xeros_kernel.Create.Fresh.{create-eq}
use xeros_kernel.Memory.{kmalloc, Heap}
use xeros_kernel.System.{System, Env}
use xeros_kernel.Create.{fill_slot, create, get_free_pcb_slot, new_pcb, start_process}
use xeros_kernel.ReadyQueue.{make_ready, link_last}
use xeros_kernel.Process.{
  ready, detach, set_next, store, stopped, null, Kernel, PrioQueue, Ptr, Pcbs, Pcb,
}
use xeros_kernel.Base.{
  ==_iff, inr, sym, inl, refl, ==_self, ◌==◌, ◌∙◌, ap, Bool-cases, some, ◌≢◌, ◌≡◌, ℕ,
}

-- The fields that `create` should have cleared.
abbrev pub Inherited : Pcb → Pcb → Type 0
Inherited c d =
    (c.fdt ≡ d.fdt)
    × (c.sig_ignored ≡ d.sig_ignored)
    × (c.wait_head ≡ d.wait_head)
    × (c.wait_tail ≡ d.wait_tail)
    × (c.waiting_on ≡ d.waiting_on)

-- An entry but for its links and its state.
abbrev pub core : Pcb → Pcb
core c = record c { next = null; prev = null; state = stopped }

store-core :
    (t : Pcbs) (p a : Ptr) (c : Pcb) → core c ≡ core (t p) → core (store t p c a) ≡ core (t a)
store-core t p a c h = elim (Bool-cases (a == p)) [
  | inl b ↦ rw b (h ∙ ap (λ x. core (t x)) (sym ((==_iff a p).0 b)))
  | inr b ↦ rw b refl
]

link_last-core :
    (t : Pcbs) (q : PrioQueue) (i : ℕ) (p a : Ptr) → core ((link_last t q i p).0 a) ≡ core (t a)
unfolding link_last
link_last-core t q i p a = elim (Bool-cases (q.head i == null)) [
  | inl b ↦ rw b refl
  | inr b ↦
      rw b (store-core (set_next t (q.tail i) p) p a _ refl ∙ store-core t (q.tail i) a _ refl)
]

pub make_ready-core : (p a : Ptr) (k : Kernel) → core ((make_ready p k).pcbs a) ≡ core (k.pcbs a)
unfolding make_ready
make_ready-core p a k = elim (Bool-cases ((k.pcbs p).pid == 0)) [
  | inl b ↦ rw b (store-core k.pcbs k.idle_pcb a _ refl)
  | inr b ↦ rw b (
      link_last-core (detach k.pcbs p ready) k.ready_queue (k.pcbs p).priority p a
      ∙ store-core k.pcbs p a _ refl)
]

fill_slot-Inherited :
    (e : Env) (p addr func stack : ℕ) (k : Kernel)
    → Inherited ((fill_slot e p addr func stack k).pcbs p) (k.pcbs p)
unfolding new_pcb
fill_slot-Inherited e p addr func stack k = rw (==_self p) (refl, refl, refl, refl, refl)

Inherited-core : (c d : Pcb) → core c ≡ core d → Inherited c d
Inherited-core c d h = (
  ap (λ x. x.fdt) h,
  ap (λ x. x.sig_ignored) h,
  ap (λ x. x.wait_head) h,
  ap (λ x. x.wait_tail) h,
  ap (λ x. x.waiting_on) h,
)

inherits :
    (p : Ptr) (k : Kernel) (d : Pcb)
    → Inherited (k.pcbs p) d
    → Inherited ((make_ready p k).pcbs p) d
inherits p k d (k1, k2, k3, k4, k5) =
    let (h1, h2, h3, h4, h5) =
      Inherited-core ((make_ready p k).pcbs p) (k.pcbs p) (make_ready-core p p k) in
    (h1 ∙ k1, h2 ∙ k2, h3 ∙ k3, h4 ∙ k4, h5 ∙ k5)

-- If the table has a free slot and `kmalloc` finds a stack, `create` ends, and the new process has
-- the descriptors, the ignored signals and the waiting processes that the slot had before.
pub create-Inherited :
    (e : Env) (f func stack addr : ℕ) (h : Heap) (s : System)
    → get_free_pcb_slot s.kernel.pcbs ≢ null
    → kmalloc f stack s.heap ≡ some (addr, h)
    → addr ≢ null
    → let p = get_free_pcb_slot s.kernel.pcbs in
      (pid : ℕ) × (s' : System) × (create e f func stack s ≡ some (pid, s'))
      × Inherited (s'.kernel.pcbs p) (s.kernel.pcbs p)
unfolding start_process
create-Inherited e f func stack addr h s slot got ok =
    let p = get_free_pcb_slot s.kernel.pcbs in
    (
      (start_process e p addr func stack (record s { heap = h })).0,
      (start_process e p addr func stack (record s { heap = h })).1,
      create-eq e f func stack addr h s slot got ok,
      inherits p (fill_slot e p addr func stack s.kernel) (s.kernel.pcbs p)
          (fill_slot-Inherited e p addr func stack s.kernel),
    )
