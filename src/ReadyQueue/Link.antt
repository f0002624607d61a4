-- ===== src/ReadyQueue/Link.antt =====
-- `link_last` on one doubly linked list: it appends, and spares the lists of other priorities.
use xeros_kernel.Base.{
  ℕ, refl, ◌≡◌, ◌≢◌, refl, List, [], ◌∷◌, ◌++◌, false, ◌==◌, arith, sym, subst, ◌∙◌, All,
  AllDistinct-append_one, All-append_one, last_or-mem, mem_ne, ==_self, ==_ne, last_or-append_one,
  ◌∈◌, ◌∉◌, AllDistinct, AllDistinct-append_one, All-append_one, last_or, last_or-mem, mem_ne,
  ==_self, ==_ne, last_or-append_one,
}
use mathlib.Core.Bool.{false≢true}
use xeros_kernel.Process.{ProcState, Ptr, null, Pcb, Pcbs, set_next, set_prev, PrioQueue, put}
use xeros_kernel.Process.Chain.{Chain, Chain-frame, Chain-extend}
use xeros_kernel.ReadyQueue.{link_last}

-- The processes that a list holds: in this state, and of the list's priority.
abbrev pub Members : ProcState → Pcbs → ℕ → List Ptr → Type 0
Members s t i = All λ x. ((t x).priority ≡ i) × ((t x).state ≡ s)

-- At priority i, `head` and `tail` and the `next` fields hold the processes of xs, in that order.
pub record IsQueue (s : ProcState) (t : Pcbs) (q : PrioQueue) (i : ℕ) (xs : List Ptr) : Type 0 where
  pub chain : Chain t (q.head i) xs
  pub last : q.head i ≢ null → q.tail i ≡ last_or null xs
  pub members : Members s t i xs
  pub distinct : AllDistinct xs

pub Members-frame :
    (s : ProcState) (t u : Pcbs) (i : ℕ) (xs : List Ptr)
    → ((a : Ptr) → a ∈ xs → ((u a).priority ≡ (t a).priority) × ((u a).state ≡ (t a).state))
    → Members s t i xs
    → Members s u i xs
Members-frame s t u i [] same m = tt
Members-frame s t u i (x ∷ xs) same ((p, e), m) =
    (ground (arith, same x), Members-frame s t u i xs (λ a h. same a (ground arith)) m)

-- The three fields that a list of processes depends on.
abbrev pub Same : Pcb → Pcb → Type 0
Same c d = (c.next ≡ d.next) × (c.priority ≡ d.priority) × (c.state ≡ d.state)

pub IsQueue-frame :
    {s : ProcState} {t : Pcbs} {q : PrioQueue} {i : ℕ} {xs : List Ptr} (u : Pcbs) (r : PrioQueue)
    → IsQueue s t q i xs
    → r.head i ≡ q.head i
    → r.tail i ≡ q.tail i
    → ((a : Ptr) → a ∈ xs → Same (u a) (t a))
    → IsQueue s u r i xs
IsQueue-frame {s} {t} {q} {i} {xs} u r w h l same = record {
  chain = rw h (Chain-frame t u (q.head i) xs (λ a m. (same a m).0) w.chain);
  last = rw (h, l) w.last;
  members = Members-frame s t u i xs (λ a m. ((same a m).1, (same a m).2)) w.members;
  distinct = w.distinct;
}

-- `pcb` is in the right state, of priority i, and has no successor.
pub record IsDetached (s : ProcState) (t : Pcbs) (i : ℕ) (pcb : Ptr) : Type 0 where
  pub not_null : pcb ≢ null
  pub ends : (t pcb).next ≡ null
  pub priority : (t pcb).priority ≡ i
  pub state : (t pcb).state ≡ s

-- The table after `tail->next = pcb; pcb->prev = tail`.
abbrev joined : Pcbs → Ptr → Ptr → Pcbs
joined t l pcb = set_prev (set_next t l pcb) pcb l

joined-tail : (t : Pcbs) (l pcb : Ptr) → l ≢ pcb → (joined t l pcb l).next ≡ pcb
joined-tail t l pcb ne = ground arith

joined_self : (t : Pcbs) (l pcb : Ptr) → l ≢ pcb → (joined t l pcb pcb).next ≡ (t pcb).next
joined_self t l pcb ne = ground arith

joined-other : (t : Pcbs) (l pcb a : Ptr) → (a == l) ≡ false → (joined t l pcb a).next ≡ (t a).next
joined-other t l pcb a ne = ground arith

joined-keeps :
    (t : Pcbs) (l pcb a : Ptr)
    → ((joined t l pcb a).priority ≡ (t a).priority) × ((joined t l pcb a).state ≡ (t a).state)
joined-keeps t l pcb a = ground arith

link_last-eq :
    (t : Pcbs) (q : PrioQueue) (i : ℕ) (pcb l : Ptr)
    → q.head i ≢ null
    → q.tail i ≡ l
    → link_last t q i pcb
      ≡ (joined t l pcb, record { head = q.head; tail = put q.tail i (joined t l pcb l).next })
unfolding link_last
link_last-eq t q i pcb l nz e = rw (==_ne _ _ nz, e)

module _ {s : ProcState} {t : Pcbs} {q : PrioQueue} {i : ℕ} where
  nonempty : {x : Ptr} {xs : List Ptr} → IsQueue s t q i (x ∷ xs) → q.head i ≢ null
  nonempty w e = w.chain.1 (sym w.chain.0 ∙ e)

module _ {s : ProcState} {t : Pcbs} {q : PrioQueue} {i : ℕ} (pcb : Ptr) where
  joined-append :
      (x : Ptr) (xs : List Ptr)
      → IsQueue s t q i (x ∷ xs)
      → IsDetached s t i pcb
      → pcb ∉ (x ∷ xs)
      → let u = joined t (last_or x xs) pcb in
        IsQueue s u
          (record { head = q.head; tail = put q.tail i (u (last_or x xs)).next })
          i
          (x ∷ xs ++ pcb ∷ [])
  joined-append x xs w d out = record {
    chain =
        Chain-extend t u (q.head i) x xs pcb d.not_null (joined_self t l pcb ne ∙ d.ends)
          (joined-tail t l pcb ne) (λ a n _. joined-other t l pcb a n) w.distinct w.chain;
    last = λ _. rw (==_self i) (joined-tail t l pcb ne ∙ sym (last_or-append_one x xs pcb));
    members =
        All-append_one _ (x ∷ xs) pcb
          (Members-frame s t u i (x ∷ xs) (λ a _. joined-keeps t l pcb a) w.members)
          (ground (arith, joined-keeps t l pcb pcb));
    distinct = AllDistinct-append_one (x ∷ xs) pcb w.distinct out;
  }
    where
      l : Ptr
      l = last_or x xs

      u : Pcbs
      u = joined t l pcb

      ne : l ≢ pcb
      ne e = false≢true (sym (subst (λ y. y ∉ (x ∷ xs)) (sym e) out) ∙ last_or-mem x xs)

  pub link_last-append :
      (xs : List Ptr)
      → IsQueue s t q i xs
      → IsDetached s t i pcb
      → pcb ∉ xs
      → let (u, r) = link_last t q i pcb in IsQueue s u r i (xs ++ pcb ∷ [])
  unfolding link_last
  link_last-append [] w d out = record {
    chain = ground (arith, w.chain);
    last = ground (arith, w.chain);
    members = ground (arith, w.chain);
    distinct = (refl, tt);
  }
  link_last-append (x ∷ xs) w d out =
      rw (link_last-eq t q i pcb (last_or x xs) (nonempty w) (w.last (nonempty w)))
        (joined-append x xs w d out)

  -- Nothing but `pcb` and the old tail is written to, and of those only the links.
  pub link_last-Same :
      (xs : List Ptr) (a : Ptr)
      → IsQueue s t q i xs
      → (a == pcb) ≡ false
      → a ∉ xs
      → Same ((link_last t q i pcb).0 a) (t a)
  unfolding link_last
  link_last-Same [] a w ne out = ground (arith, w.chain)
  link_last-Same (x ∷ xs) a w ne out =
      rw (link_last-eq t q i pcb (last_or x xs) (nonempty w) (w.last (nonempty w))) (
        joined-other t (last_or x xs) pcb a
            (mem_ne (last_or x xs) a (x ∷ xs) (last_or-mem x xs) out),
        (joined-keeps t (last_or x xs) pcb a).0,
        (joined-keeps t (last_or x xs) pcb a).1,
      )

pub link_last-elsewhere :
    (t : Pcbs) (q : PrioQueue) (i j : ℕ) (pcb : Ptr)
    → j ≢ i
    → ((link_last t q i pcb).1.head j ≡ q.head j) × ((link_last t q i pcb).1.tail j ≡ q.tail j)
unfolding link_last
link_last-elsewhere t q i j pcb ne = ground arith

-- An empty list has no head.
pub head-null :
    {s : ProcState} {t : Pcbs} {q : PrioQueue} {i : ℕ} {xs : List Ptr}
    → IsQueue s t q i xs
    → xs ≡ []
    → q.head i ≡ null
head-null {t} {q} {i} w e = subst (Chain t (q.head i)) e w.chain

-- Every other process keeps all its fields.
pub link_last-untouched :
    {s : ProcState} {t : Pcbs} {q : PrioQueue} {i : ℕ} (pcb : Ptr) (xs : List Ptr) (a : Ptr)
    → IsQueue s t q i xs
    → (a == pcb) ≡ false
    → a ∉ xs
    → (link_last t q i pcb).0 a ≡ t a
unfolding link_last
link_last-untouched pcb [] a w ne out = ground (arith, w.chain)
link_last-untouched {t} {q} {i} pcb (x ∷ xs) a w ne out =
    rw (link_last-eq t q i pcb (last_or x xs) (nonempty w) (w.last (nonempty w)))
      (rw (ne, mem_ne (last_or x xs) a (x ∷ xs) (last_or-mem x xs) out))

-- The new last process has no successor.
pub link_last-ends :
    {s : ProcState} {t : Pcbs} {q : PrioQueue} {i : ℕ} (pcb : Ptr) (xs : List Ptr)
    → IsQueue s t q i xs
    → (t pcb).next ≡ null
    → pcb ∉ xs
    → ((link_last t q i pcb).0 pcb).next ≡ null
unfolding link_last
link_last-ends pcb [] w ends out = ground (arith, w.chain)
link_last-ends {t} {q} {i} pcb (x ∷ xs) w ends out =
    rw (link_last-eq t q i pcb (last_or x xs) (nonempty w) (w.last (nonempty w))) (
      joined_self t (last_or x xs) pcb
        (λ e. ground (arith, mem_ne (last_or x xs) pcb (x ∷ xs) (last_or-mem x xs) out))
      ∙ ends)
