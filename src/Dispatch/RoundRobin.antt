-- ===== src/Dispatch/RoundRobin.antt =====
-- SYS_YIELD of c/disp.c, again and again: processes of one priority take turns.
use xeros_kernel.ReadyQueue.Pids.{make_ready-pid, next-pid}
use mathlib.Core.List.{append_assoc}
use xeros_kernel.ReadyQueue.Link.{IsQueue}
use xeros_kernel.Dispatch.Serve.{serve}
use xeros_kernel.Priority.Lists.{next-same}
use xeros_kernel.ReadyQueue.{make_ready, next}
use xeros_kernel.ReadyQueue.Spec.{next-takes, make_ready-IsReady, IsReady}
use xeros_kernel.ReadyQueue.Lists.{first-out, AreQueues, replace, Queues}
use xeros_kernel.Process.{ready, running, Kernel, null, pq_size, PrioQueue, Ptr, ProcState, Pcbs}
use xeros_kernel.Dispatch.{run_next, give_up}
use xeros_kernel.Dispatch.Request.{sys_yield}
use xeros_kernel.System.{System, Env}
use xeros_kernel.Base.{
  All-append_one, length, ==_ne, ap, zero, ==_self, none, ◌∉◌, ◌++◌, subst, sym, ◌∙◌, suc, arith,
  All, ◌≢◌, some, ◌<◌, ◌≡◌, Option, List, ℕ, [], ◌∷◌,
}

-- n requests SYS_YIELD in a row, each by the process that runs then.
pub yields : ℕ → Env → ℕ → Ptr → System → Option (Ptr × System)
yields zero e f p s = some (p, s)
yields (suc n) e f p s = elim (serve e f none p s sys_yield) [
  | none ↦ none
  | some (q, s') ↦ yields n e f q s'
]

-- Process p runs, the ready queue holds the lists qs, p is in none of them, and neither p nor a
-- process of its own priority is the idle process.
pub record IsRunning (s : System) (qs : Queues) (i : ℕ) (p : Ptr) : Type 0 where
  pub lists : IsReady s.kernel qs
  pub not_null : p ≢ null
  pub not_idle : (s.kernel.pcbs p).pid ≢ 0
  pub priority : (s.kernel.pcbs p).priority ≡ i
  pub out : (j : ℕ) → j < pq_size → p ∉ qs j
  pub busy : All (λ a. (s.kernel.pcbs a).pid ≢ 0) (qs i)

give_up-pid : (p a : Ptr) (s : System) → ((give_up p s).1.kernel.pcbs a).pid ≡ (s.kernel.pcbs a).pid
unfolding give_up run_next
give_up-pid p a s = next-pid a (make_ready p s.kernel) ∙ make_ready-pid p a s.kernel

busy-kept :
    (t u : Pcbs) (xs : List Ptr)
    → ((a : Ptr) → (u a).pid ≡ (t a).pid)
    → All (λ a. (t a).pid ≢ 0) xs
    → All (λ a. (u a).pid ≢ 0) xs
busy-kept t u [] same h = tt
busy-kept t u (x ∷ xs) same (h, hs) = (λ e. h (sym (same x) ∙ e), busy-kept t u xs same hs)

AreQueues-same :
    (s : ProcState) (t : Pcbs) (q : PrioQueue) (qs rs : Queues)
    → ((j : ℕ) → qs j ≡ rs j)
    → AreQueues s t q qs
    → AreQueues s t q rs
AreQueues-same s t q qs rs same w j h = subst (IsQueue s t q j) (same j) (w j h)

replace-twice :
    (qs : Queues) (i : ℕ) (xs ys : List Ptr) (j : ℕ)
    → replace (replace qs i xs) i ys j ≡ replace qs i ys j
replace-twice qs i xs ys j = ground arith

module _ (s : System) (qs : Queues) (i p y : ℕ) (zs : List Ptr) where
  give_up-IsRunning :
      IsRunning s qs i p
      → i < pq_size
      → qs i ≡ y ∷ zs
      → ((j : ℕ) → i < j → j < pq_size → qs j ≡ [])
      → ((give_up p s).0 ≡ y) × IsRunning (give_up p s).1 (replace qs i (zs ++ p ∷ [])) i y
  unfolding give_up run_next
  give_up-IsRunning w small e above = (
    step.0,
    record {
      lists =
          AreQueues-same ready (next k1).1.pcbs (next k1).1.ready_queue (replace qs1 i later)
            (replace qs i later) (replace-twice qs i (qs i ++ p ∷ []) later) step.2;
      not_null = at.chain.1;
      not_idle = λ z. busy.0 (sym (give_up-pid p y s) ∙ z);
      priority = next-same k1 y ∙ at.members.0.0;
      out = λ j h.
          subst (λ xs. y ∉ xs) (replace-twice qs i (qs i ++ p ∷ []) later j)
            (first-out ready1 small e1 j h);
      busy = rw (==_self i) (
          busy-kept s.kernel.pcbs (give_up p s).1.kernel.pcbs later (λ a. give_up-pid p a s)
            (All-append_one (λ a. (s.kernel.pcbs a).pid ≢ 0) zs p busy.1 w.not_idle));
    },
  )
    where
      k1 : Kernel
      k1 = make_ready p s.kernel

      later : List Ptr
      later = zs ++ p ∷ []

      qs1 : Queues
      qs1 = replace qs i (qs i ++ p ∷ [])

      busy : All (λ a. (s.kernel.pcbs a).pid ≢ 0) (y ∷ zs)
      busy = subst (All (λ a. (s.kernel.pcbs a).pid ≢ 0)) e w.busy

      ready1 : IsReady k1 qs1
      ready1 =
          subst (λ j. IsReady k1 (replace qs j (qs j ++ p ∷ []))) w.priority
            (make_ready-IsReady p s.kernel qs w.lists w.not_idle w.not_null
              (subst (λ j. j < pq_size) (sym w.priority) small) w.out)

      e1 : qs1 i ≡ y ∷ later
      e1 = rw (==_self i) (ap (λ xs. xs ++ p ∷ []) e)

      at : IsQueue ready k1.pcbs k1.ready_queue i (y ∷ later)
      at = subst (IsQueue ready k1.pcbs k1.ready_queue i) e1 (ready1 i small)

      above1 : (j : ℕ) → i < j → j < pq_size → qs1 j ≡ []
      above1 j a b = rw (==_ne j i (λ q. omega arith)) (above j a b)

      step :
          ((next k1).0 ≡ y)
          × (((next k1).1.pcbs y).state ≡ running)
          × IsReady (next k1).1 (replace qs1 i later)
      step = next-takes k1 qs1 i y later ready1 small e1 above1

-- If process p runs, the ready queue holds xs, then x, then ys at p's priority and nothing at a
-- higher one, p is in no list, and neither p nor a process of that list is the idle one, then x
-- runs after one request SYS_YIELD more than xs has processes, each made by the process that runs
-- then.
pub yields-reaches :
    (xs ys : List Ptr) (e : Env) (f : ℕ) (s : System) (qs : Queues) (i p x : ℕ)
    → IsRunning s qs i p
    → i < pq_size
    → qs i ≡ xs ++ x ∷ ys
    → ((j : ℕ) → i < j → j < pq_size → qs j ≡ [])
    → (s' : System) × (yields (suc (length xs)) e f p s ≡ some (x, s'))
unfolding yields serve
yields-reaches [] ys e f s qs i p x w small h above =
    let (q, v) = give_up-IsRunning s qs i p x ys w small h above in
    ((give_up p s).1, ap (λ a. some (a, (give_up p s).1)) q)
yields-reaches (y ∷ xs) ys e f s qs i p x w small h above =
    let (q, v) = give_up-IsRunning s qs i p y (xs ++ x ∷ ys) w small h above in
    let r =
      yields-reaches xs (ys ++ p ∷ []) e f (give_up p s).1 (replace qs i ((xs ++ x ∷ ys) ++ p ∷ []))
        i y x v small (rw (==_self i) (append_assoc xs (x ∷ ys) (p ∷ [])))
        (λ j a b. rw (==_ne j i (λ z. omega arith)) (above j a b)) in
    (r.0, ap (λ a. yields (suc (length xs)) e f a (give_up p s).1) q ∙ r.1)
