-- ===== src/Sleep/Tick.antt =====
-- `tick`: a tick passes, and the processes whose time has come are made ready.
use xeros_kernel.ReadyQueue.Link.{Same}
use xeros_kernel.Sleep.Order.{mem-apart}
use xeros_kernel.Sleep.Delta.{IsDelta, Sleepers-frame, Sleepers, IsAsleep, names}
use xeros_kernel.ReadyQueue.Spec.{make_ready-IsReady, make_ready-untouched, IsReady}
use xeros_kernel.ReadyQueue.Lists.{AreQueues-frame, not-mem-Members, replace, AreQueues, Queues}
use xeros_kernel.Sleep.{wake_first}
use xeros_kernel.ReadyQueue.{make_ready, link_last}
use xeros_kernel.Process.{
  detach, pq_size, null, set_prev, sleep, ready, store, PrioQueue, Kernel, Ptr, Pcbs,
}
use xeros_kernel.Base.{
  sym, ==_iff, inl, Bool-cases, subst, ◌∙◌, ◌∈◌, ◌≢◌, refl, inr, ◌∉◌, ==_self, false, ◌<◌, [], ◌==◌,
  ◌++◌, arith, ◌∷◌, ◌≡◌, AllDistinct, List, ℕ,
}

-- The front of a list loses its link back.
Sleepers-set_prev :
    (t : Pcbs) (back p : Ptr) (xs : List (Ptr × ℕ))
    → AllDistinct (names xs)
    → Sleepers t back p xs
    → Sleepers (set_prev t p null) null p xs
Sleepers-set_prev t back p [] dis s = s
Sleepers-set_prev t back p ((x, d) ∷ xs) dis s = (
  s.0,
  s.1,
  rw new refl,
  rw new s.3,
  rw new (record { state = s.4.state; priority = s.4.priority; pid = s.4.pid }),
  rw new (
      Sleepers-frame t (set_prev t p null) x (t x).next xs
        (λ a m. rw (s.0, mem-apart x a (names xs) dis.0 m) refl) s.5),
)
  where
    new : set_prev t p null x ≡ record (t x) { prev = null }
    new = rw (s.0, ==_self x) refl

link_last-priority :
    (t : Pcbs) (q : PrioQueue) (i : ℕ) (p a : Ptr)
    → ((link_last t q i p).0 a).priority ≡ (t a).priority
unfolding link_last
link_last-priority t q i p a = ground arith

make_ready-priority :
    (p : Ptr) (k : Kernel) (a : Ptr) → ((make_ready p k).pcbs a).priority ≡ (k.pcbs a).priority
unfolding make_ready
make_ready-priority p k a =
    ground (arith, link_last-priority (detach k.pcbs p ready) k.ready_queue (k.pcbs p).priority p a)

set_prev-Same : (t : Pcbs) (p back a : Ptr) → Same (set_prev t p back a) (t a)
set_prev-Same t p back a = ground arith

-- The ready queue once these processes have joined it, in this order.
abbrev pub woken : (Ptr → ℕ) → Queues → List Ptr → Queues
woken priority qs [] = qs
woken priority qs (x ∷ xs) = woken priority (replace qs (priority x) (qs (priority x) ++ x ∷ [])) xs

-- A process asleep is in no list of ready processes.
asleep-out :
    (t : Pcbs) (q : PrioQueue) (qs : Queues) (x : Ptr)
    → AreQueues ready t q qs
    → (t x).state ≡ sleep
    → (j : ℕ) → j < pq_size
    → x ∉ qs j
asleep-out t q qs x w e j h =
    not-mem-Members ready t j (qs j) x (w j h).members (inr λ z. ground arith)

-- The process at the front, with its return value.
abbrev returned : Ptr → Kernel → Kernel
returned x k = record k { pcbs = store k.pcbs x (record (k.pcbs x) { rc = (k.pcbs x).tick }) }

returned-priority :
    (x : Ptr) (k : Kernel) (a : Ptr) → ((returned x k).pcbs a).priority ≡ (k.pcbs a).priority
returned-priority x k a = ground arith

returned-IsReady : (k : Kernel) (x : Ptr) (qs : Queues) → IsReady k qs → IsReady (returned x k) qs
returned-IsReady k x qs r = AreQueues-frame (returned x k).pcbs r λ a. ground arith

-- The kernel of `wake_first` before its last two assignments.
abbrev woke : Ptr → Kernel → Kernel
woke x k = make_ready x (returned x k)

woke-untouched :
    (k : Kernel) (x : Ptr) (qs : Queues) (a : Ptr)
    → IsReady k qs
    → IsAsleep (k.pcbs x)
    → (a == x) ≡ false
    → (k.pcbs a).state ≡ sleep
    → (woke x k).pcbs a ≡ k.pcbs a
woke-untouched k x qs a r s ne e =
    make_ready-untouched x (returned x k) qs a (returned-IsReady k x qs r) (rw (==_self x) s.pid)
      (rw (==_self x) s.priority) (asleep-out k.pcbs k.ready_queue qs x r s.state) ne
      (rw (==_self x) (asleep-out k.pcbs k.ready_queue qs a r e (k.pcbs x).priority s.priority))
    ∙ rw ne refl

woke-IsReady :
    (k : Kernel) (x : Ptr) (qs : Queues)
    → IsReady k qs
    → x ≢ null
    → IsAsleep (k.pcbs x)
    → let i = (k.pcbs x).priority in IsReady (woke x k) (replace qs i (qs i ++ x ∷ []))
woke-IsReady k x qs r nz s =
    subst (λ i. IsReady (woke x k) (replace qs i (qs i ++ x ∷ []))) (rw (==_self x) refl)
      (make_ready-IsReady x (returned x k) qs (returned-IsReady k x qs r) (rw (==_self x) s.pid) nz
        (rw (==_self x) s.priority) (asleep-out k.pcbs k.ready_queue qs x r s.state))

-- Every process of a delta list is asleep.
Sleepers-state :
    (t : Pcbs) (back p : Ptr) (xs : List (Ptr × ℕ)) (a : Ptr)
    → Sleepers t back p xs
    → a ∈ names xs
    → (t a).state ≡ sleep
Sleepers-state t back p [] a s m = cc
Sleepers-state t back p ((x, d) ∷ xs) a s m = elim (Bool-cases (a == x)) [
  | inl e ↦ rw ((==_iff a x).0 e) s.4.state
  | inr e ↦ Sleepers-state t x (t x).next xs a s.5 (ground arith)
]

-- One turn: the front process is made ready, and the list is what comes behind it.
pub record Woken (k : Kernel) (x : Ptr) (xs : List (Ptr × ℕ)) (qs : Queues) (k' : Kernel)
    : Type 0 where
  pub list : IsDelta k' xs
  pub ready : IsReady k' (replace qs (k.pcbs x).priority (qs (k.pcbs x).priority ++ x ∷ []))
  pub priority : (a : Ptr) → (k'.pcbs a).priority ≡ (k.pcbs a).priority

wake_first-eq :
    (x : Ptr) (k : Kernel)
    → wake_first x k ≡ record (woke x k) {
      pcbs = set_prev (woke x k).pcbs (k.pcbs x).next null;
      dl = (k.pcbs x).next;
    }
unfolding wake_first
wake_first-eq x k = refl

pub wake_first_lem :
    (k : Kernel) (x d : ℕ) (xs : List (Ptr × ℕ)) (qs : Queues)
    → IsDelta k ((x, d) ∷ xs)
    → IsReady k qs
    → Woken k x xs qs (wake_first x k)
wake_first_lem k x d xs qs w r = subst (Woken k x xs qs) (sym (wake_first-eq x k)) (record {
  list = record {
    list = Sleepers-set_prev (woke x k).pcbs x (k.pcbs x).next xs w.distinct.1 (
        Sleepers-frame k.pcbs (woke x k).pcbs x (k.pcbs x).next xs
          (λ a m.
            woke-untouched k x qs a r w.list.4 (mem-apart x a (names xs) w.distinct.0 m)
              (Sleepers-state k.pcbs x (k.pcbs x).next xs a w.list.5 m))
          w.list.5);
    distinct = w.distinct.1;
  };
  ready =
      AreQueues-frame (set_prev (woke x k).pcbs (k.pcbs x).next null)
        (woke-IsReady k x qs r w.list.1 w.list.4)
        (λ a. set_prev-Same (woke x k).pcbs (k.pcbs x).next null a);
  priority = λ a.
      (set_prev-Same (woke x k).pcbs (k.pcbs x).next null a).1
      ∙ make_ready-priority x (returned x k) a
      ∙ returned-priority x k a;
})
