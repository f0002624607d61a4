-- ===== src/ReadyQueue/Spec.antt =====
-- What the ready queue promises: a first-in first-out list for each priority.
use xeros_kernel.ReadyQueue.Lists.{
  first-out, advance-AreQueues, link_last-apart, AreQueues-detach, IsQueue-detach,
  link_last-AreQueues, replace, AreQueues, Queues,
}
use xeros_kernel.Process.Chain.{Chain}
use xeros_kernel.Base.{
  ==_self, false, refl, inr, inl, ◌∙◌, ◌==◌, zero, sym, subst, Bool-cases, suc, List, ℕ, ◌≡◌, ◌≢◌,
  ◌<◌, [], ◌∷◌, ◌++◌, arith, ◌∉◌, ==_ne,
}
use xeros_kernel.Process.{
  Pcbs, PrioQueue, ProcState, running, set_state, ready, Ptr, null, detach, Kernel, pq_size,
}
use xeros_kernel.ReadyQueue.{advance, highest, next, link_last, make_ready}
use xeros_kernel.ReadyQueue.Link.{link_last-untouched, IsQueue, IsDetached}

-- The ready queue of the kernel holds these lists.
abbrev pub IsReady : Kernel → Queues → Type 0
IsReady k qs = AreQueues ready k.pcbs k.ready_queue qs

pub make_ready-eq :
    (p : Ptr) (k : Kernel)
    → (k.pcbs p).pid ≢ 0
    → make_ready p k ≡ record k {
      pcbs = (link_last (detach k.pcbs p ready) k.ready_queue (k.pcbs p).priority p).0;
      ready_queue = (link_last (detach k.pcbs p ready) k.ready_queue (k.pcbs p).priority p).1;
    }
unfolding make_ready
make_ready-eq p k h = rw (==_ne _ _ h)

module _ (p : Ptr) (k : Kernel) (qs : Queues) where
  pub make_ready-IsReady :
      IsReady k qs
      → (k.pcbs p).pid ≢ 0
      → p ≢ null
      → (k.pcbs p).priority < pq_size
      → ((j : ℕ) → j < pq_size → p ∉ qs j)
      → IsReady (make_ready p k) (replace qs (k.pcbs p).priority (qs (k.pcbs p).priority ++ p ∷ []))
  make_ready-IsReady w not_idle nz small out =
      rw (make_ready-eq p k not_idle)
        (link_last-AreQueues p (AreQueues-detach p ready w out) now small out)
    where
      now : IsDetached ready (detach k.pcbs p ready) (k.pcbs p).priority p
      now = ground arith

highest-null : (head : ℕ → Ptr) (n : ℕ) → ((i : ℕ) → i < n → head i ≡ null) → highest head n ≡ null
unfolding highest
highest-null head zero h = refl
highest-null head (suc n) h =
    ground (arith, h n (omega arith), highest-null head n (λ i l. h i (omega arith)))

highest-eq :
    (head : ℕ → Ptr) (i n : ℕ)
    → i < n
    → head i ≢ null
    → ((j : ℕ) → i < j → j < n → head j ≡ null)
    → highest head n ≡ head i
unfolding highest
highest-eq head i zero l nz h = absurd (omega arith)
highest-eq head i (suc n) l nz h = elim (Bool-cases (i == n)) [
  | inl e ↦ ground (arith)
  | inr e ↦ ground (
    arith,
    h n (ground arith),
    highest-eq head i n (ground arith) nz (λ j a b. h j a (omega arith)),
  )
]

-- With no process in the ready queue, `next` returns the idle process, marks it running and
-- changes nothing else.
next-idle :
    (k : Kernel)
    → IsReady k (λ _. [])
    → ((next k).0 ≡ k.idle_pcb)
      × ((next k).1 ≡ record k { pcbs = set_state k.pcbs k.idle_pcb running })
unfolding next
next-idle k w = rw (highest-null k.ready_queue.head pq_size λ i h. (w i h).chain) (refl, refl)

pub next-eq :
    (k : Kernel) (x : Ptr)
    → highest k.ready_queue.head pq_size ≡ x
    → x ≢ null
    → next k ≡ (
      x,
      record k {
        pcbs = detach k.pcbs x running;
        ready_queue = advance k.pcbs k.ready_queue (k.pcbs x).priority;
      },
    )
unfolding next
next-eq k x e nz = rw (e, ==_ne x null nz)

module _ (k : Kernel) (qs : Queues) (i x : ℕ) (xs : List Ptr) where
  top :
      IsReady k qs
      → i < pq_size
      → qs i ≡ x ∷ xs
      → ((j : ℕ) → i < j → j < pq_size → qs j ≡ [])
      → highest k.ready_queue.head pq_size ≡ x
  top w small e above =
      highest-eq k.ready_queue.head i pq_size small (λ n. here.1 (sym here.0 ∙ n))
        (λ j a b. subst (Chain k.pcbs (k.ready_queue.head j)) (above j a b) (w j b).chain)
      ∙ here.0
    where
      here : Chain k.pcbs (k.ready_queue.head i) (x ∷ xs)
      here = subst (Chain k.pcbs (k.ready_queue.head i)) e (w i small).chain

  -- With the ready queue a list of processes for each priority, and x the first process of the
  -- highest priority whose list is not empty, `next` returns x, marks it running, and leaves the
  -- lists as they were without x.
  pub next-takes :
      IsReady k qs
      → i < pq_size
      → qs i ≡ x ∷ xs
      → ((j : ℕ) → i < j → j < pq_size → qs j ≡ [])
      → ((next k).0 ≡ x)
        × (((next k).1.pcbs x).state ≡ running)
        × IsReady (next k).1 (replace qs i xs)
  next-takes w small e above = rw (next-eq k x (top w small e above) nz) (
    refl,
    ground arith,
    λ j h.
        subst
          (λ y.
            IsQueue ready (detach k.pcbs x running) (advance k.pcbs k.ready_queue y) j
              (replace qs i xs j))
          (sym prio)
          (IsQueue-detach x running (advance-AreQueues w small e j h) (first-out w small e j h)),
  )
    where
      at : IsQueue ready k.pcbs k.ready_queue i (x ∷ xs)
      at = subst (IsQueue ready k.pcbs k.ready_queue i) e (w i small)

      nz : x ≢ null
      nz = at.chain.1

      prio : (k.pcbs x).priority ≡ i
      prio = at.members.0.0

-- `ready` keeps the lists of processes in another state.
pub make_ready-apart :
    (p : Ptr) (k : Kernel) (qs : Queues) {s : ProcState} {q : PrioQueue} {rs : Queues}
    → IsReady k qs
    → (k.pcbs p).pid ≢ 0
    → (k.pcbs p).priority < pq_size
    → ((j : ℕ) → j < pq_size → p ∉ qs j)
    → AreQueues s k.pcbs q rs
    → s ≢ ready
    → ((j : ℕ) → j < pq_size → p ∉ rs j)
    → AreQueues s (make_ready p k).pcbs q rs
make_ready-apart p k qs {s} w not_idle small out v ne apart = rw (make_ready-eq p k not_idle) (
    link_last-apart p s (AreQueues-detach p ready w out (k.pcbs p).priority small)
      (AreQueues-detach p ready v apart) ne apart)

-- `ready` writes to the process and to those of its list only.
pub make_ready-untouched :
    (p : Ptr) (k : Kernel) (qs : Queues) (a : Ptr)
    → IsReady k qs
    → (k.pcbs p).pid ≢ 0
    → (k.pcbs p).priority < pq_size
    → ((j : ℕ) → j < pq_size → p ∉ qs j)
    → (a == p) ≡ false
    → a ∉ qs (k.pcbs p).priority
    → (make_ready p k).pcbs a ≡ k.pcbs a
make_ready-untouched p k qs a w not_idle small out ne apart = rw (make_ready-eq p k not_idle) (
    link_last-untouched p (qs (k.pcbs p).priority) a
      (AreQueues-detach p ready w out (k.pcbs p).priority small) ne apart
    ∙ ground arith)

link_last-state :
    (t : Pcbs) (q : PrioQueue) (i : ℕ) (p : Ptr) → ((link_last t q i p).0 p).state ≡ (t p).state
unfolding link_last
link_last-state t q i p = ground arith

-- `ready`, for a process of the table that is not the idle one, has a priority of the queue and
-- stands in none of its lists, marks it ready, puts it at the end of its priority's list and keeps
-- the lists of the other priorities.
pub make_ready-appends :
    (p : Ptr) (k : Kernel) (qs : Queues)
    → IsReady k qs
    → (k.pcbs p).pid ≢ 0
    → p ≢ null
    → (k.pcbs p).priority < pq_size
    → ((j : ℕ) → j < pq_size → p ∉ qs j)
    → let i = (k.pcbs p).priority in
      (((make_ready p k).pcbs p).state ≡ ready)
      × IsReady (make_ready p k) (replace qs i (qs i ++ p ∷ []))
make_ready-appends p k qs w pid nz small out = (
  rw (make_ready-eq p k pid) (
      link_last-state (detach k.pcbs p ready) k.ready_queue (k.pcbs p).priority p
      ∙ rw (==_self p) refl),
  make_ready-IsReady p k qs w pid nz small out,
)
