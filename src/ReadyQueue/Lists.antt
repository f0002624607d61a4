-- ===== src/ReadyQueue/Lists.antt =====
-- The lists of all priorities, under `link_last` and under the removal of a first process.
use xeros_kernel.Base.{
  ◌∙◌, ==_iff, All-mem, has, subst, sym, inr, ==_self, [], mem_ne, inl, Bool-cases, last_or, arith,
  ◌++◌, ◌==◌, ◌⊎◌, refl, ◌≡◌, ◌∷◌, ◌∉◌, if◌then◌else◌, ◌≢◌, ◌<◌, List, ℕ,
}
use xeros_kernel.Process.{ProcState, detach, pq_size, Ptr, null, Pcbs, PrioQueue}
use xeros_kernel.ReadyQueue.{advance, link_last}
use xeros_kernel.ReadyQueue.Link.{
  link_last-append, link_last-Same, link_last-elsewhere, IsQueue-frame, Same, IsDetached, Members,
  IsQueue,
}

-- A process of another state or priority is not in a list.
pub not-mem-Members :
    (s : ProcState) (t : Pcbs) (i : ℕ) (xs : List Ptr) (p : Ptr)
    → Members s t i xs
    → ((t p).priority ≢ i) ⊎ ((t p).state ≢ s)
    → p ∉ xs
not-mem-Members s t i xs p ms ne = elim (Bool-cases (has p xs)) [
  | inl m ↦ absurd (clash ne (All-mem _ p xs ms m))
  | inr out ↦ out
]
  where
    clash : ((t p).priority ≢ i) ⊎ ((t p).state ≢ s) → ((t p).priority ≡ i) × ((t p).state ≡ s) → ⊥
    clash (inl f) (e, _) = f e
    clash (inr f) (_, e) = f e

-- A list of processes for each priority, oldest first.
abbrev pub Queues : Type 0
Queues = ℕ → List Ptr

abbrev pub replace : Queues → ℕ → List Ptr → Queues
replace qs i xs j = if j == i then xs else qs j

-- Every priority's list.
abbrev pub AreQueues : ProcState → Pcbs → PrioQueue → Queues → Type 0
AreQueues s t q qs = (i : ℕ) → i < pq_size → IsQueue s t q i (qs i)

module _ {s : ProcState} {t : Pcbs} {q : PrioQueue} {i : ℕ} (p : Ptr) where
  link_last-other :
      {j : ℕ} {xs ys : List Ptr}
      → IsQueue s t q i xs
      → IsQueue s t q j ys
      → p ∉ ys
      → j ≢ i
      → let (u, r) = link_last t q i p in IsQueue s u r j ys
  link_last-other {j} {xs} {ys} at_i at_j out ne =
      IsQueue-frame _ _ at_j (link_last-elsewhere t q i j p ne).0
        (link_last-elsewhere t q i j p ne).1
        λ a m. link_last-Same p xs a at_i (ground (arith, mem_ne a p ys m out)) (
          not-mem-Members s t i xs a at_i.members
            (inl λ e. ne (sym (All-mem _ a ys at_j.members m).0 ∙ e)))

  -- `pcb` joins the end of its list, and the lists of the other priorities stay.
  pub link_last-AreQueues :
      {qs : Queues}
      → AreQueues s t q qs
      → IsDetached s t i p
      → i < pq_size
      → ((j : ℕ) → j < pq_size → p ∉ qs j)
      → let (u, r) = link_last t q i p in AreQueues s u r (replace qs i (qs i ++ p ∷ []))
  link_last-AreQueues {qs} w d small out j h = elim (Bool-cases (j == i)) [
    | inl e ↦ rw e (
        subst (λ y. IsQueue s (link_last t q i p).0 (link_last t q i p).1 y (qs i ++ p ∷ []))
          (sym ((==_iff j i).0 e)) (link_last-append p (qs i) (w i small) d (out i small)))
    | inr e ↦ rw e (link_last-other (w i small) (w j h) (out j h) (λ y. ground arith))
  ]

-- Detaching a process that is in no list keeps the lists.
pub IsQueue-detach :
    {s : ProcState} {t : Pcbs} {q : PrioQueue} {i : ℕ} {xs : List Ptr} (p : Ptr) (new : ProcState)
    → IsQueue s t q i xs
    → p ∉ xs
    → IsQueue s (detach t p new) q i xs
IsQueue-detach {xs} p new w out =
    IsQueue-frame _ _ w refl refl λ a m. ground (arith, mem_ne a p xs m out)

module _ {s : ProcState} {t : Pcbs} {q : PrioQueue} where
  advance-last :
      (i x : ℕ) (xs : List Ptr)
      → IsQueue s t q i (x ∷ xs)
      → (advance t q i).head i ≢ null
      → q.tail i ≡ last_or null xs
  unfolding advance
  advance-last i x [] w nz = absurd (ground (arith, ==_self i, w.chain))
  advance-last i x (y ∷ ys) w nz = ground (arith, w.chain)

  advance-rest :
      {i x : ℕ} {xs : List Ptr} → IsQueue s t q i (x ∷ xs) → IsQueue s t (advance t q i) i xs
  unfolding advance
  advance-rest {i} {x} {xs} w = record {
    chain = ground (arith, ==_self i, w.chain);
    last = advance-last i x xs w;
    members = w.members.1;
    distinct = w.distinct.1;
  }

  -- Taking the first of a list leaves the rest, and the other lists.
  pub advance-AreQueues :
      {i x : ℕ} {xs : List Ptr} {qs : Queues}
      → AreQueues s t q qs
      → i < pq_size
      → qs i ≡ x ∷ xs
      → AreQueues s t (advance t q i) (replace qs i xs)
  unfolding advance
  advance-AreQueues {i} {x} {xs} {qs} w small e j h = elim (Bool-cases (j == i)) [
    | inl same ↦ rw same (
        subst (λ y. IsQueue s t (advance t q i) y xs) (sym ((==_iff j i).0 same))
          (advance-rest (subst (IsQueue s t q i) e (w i small))))
    | inr other ↦ rw other (IsQueue-frame _ _ (w j h) (ground arith) refl λ a m. (refl, refl, refl))
  ]

-- Lists of another state, of which `p` is no member, stay as they are.
pub link_last-apart :
    {s : ProcState} {t : Pcbs} {q : PrioQueue} {i : ℕ} {xs : List Ptr} (p : Ptr) (r : ProcState)
    {o : PrioQueue} {rs : Queues}
    → IsQueue s t q i xs
    → AreQueues r t o rs
    → r ≢ s
    → ((j : ℕ) → j < pq_size → p ∉ rs j)
    → AreQueues r (link_last t q i p).0 o rs
link_last-apart {s} {t} {q} {i} {xs} p r {o} {rs} at_i w ne out j h =
    IsQueue-frame _ _ (w j h) refl refl λ a m.
      link_last-Same p xs a at_i (ground (arith, mem_ne a p (rs j) m (out j h))) (
        not-mem-Members s t i xs a at_i.members
          (inr λ e. ne (sym (All-mem _ a (rs j) (w j h).members m).1 ∙ e)))

-- So do all lists under a change of other fields.
pub AreQueues-frame :
    {s : ProcState} {t : Pcbs} {q : PrioQueue} {qs : Queues} (u : Pcbs)
    → AreQueues s t q qs
    → ((a : Ptr) → Same (u a) (t a))
    → AreQueues s u q qs
AreQueues-frame u w same j h = IsQueue-frame _ _ (w j h) refl refl λ a _. same a

pub AreQueues-detach :
    {s : ProcState} {t : Pcbs} {q : PrioQueue} {qs : Queues} (p : Ptr) (new : ProcState)
    → AreQueues s t q qs
    → ((j : ℕ) → j < pq_size → p ∉ qs j)
    → AreQueues s (detach t p new) q qs
AreQueues-detach p new w out j h = IsQueue-detach p new (w j h) (out j h)

-- The first process of a list is in no list once it is taken off.
pub first-out :
    {s : ProcState} {t : Pcbs} {q : PrioQueue} {i x : ℕ} {xs : List Ptr} {qs : Queues}
    → AreQueues s t q qs
    → i < pq_size
    → qs i ≡ x ∷ xs
    → (j : ℕ) → j < pq_size
    → x ∉ replace qs i xs j
first-out {s} {t} {q} {i} {x} {xs} {qs} w small e j h = elim (Bool-cases (j == i)) [
  | inl same ↦ rw same at.distinct.0
  | inr other ↦
      rw other
        (not-mem-Members s t j (qs j) x (w j h).members (inl λ y. ground (arith, at.members.0.0)))
]
  where
    at : IsQueue s t q i (x ∷ xs)
    at = subst (IsQueue s t q i) e (w i small)
