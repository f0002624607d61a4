-- ===== src/Sleep/Lost.antt =====
-- `sleep` between two processes: the branch for p->prev != NULL links the new process to its
-- neighbours, and no neighbour to it.
use xeros_kernel.Sleep.Order.{mem-apart}
use xeros_kernel.Sleep.Walk.{sleep_loop-next, less-IsEntering, less-other, less, sleep_loop-before}
use xeros_kernel.Sleep.Delta.{Sleepers-frame, total, names, Sleepers}
use xeros_kernel.Sleep.Insert.{IsEntering}
use xeros_kernel.Sleep.{sleep_loop, sleep_before}
use xeros_kernel.Process.{Pcb, Pcbs, null, Ptr, Kernel}
use xeros_kernel.Base.{
  ==_comm, [], zero, ap, sym, ◌∙◌, ◌-◌, suc, some, ◌+◌, ◌≤◌, ◌∉◌, refl, ◌∷◌, arith, ◌++◌, ==_ne,
  ==_self, ◌≢◌, ◌<◌, false, length, ◌==◌, ◌≡◌, List, ℕ,
}

-- Every other process keeps its successor, and the list its head.
pub record Unlinked (k : Kernel) (pcb : Ptr) (k' : Kernel) : Type 0 where
  pub same_dl : k'.dl ≡ k.dl
  pub state : (k'.pcbs pcb).state ≡ (k.pcbs pcb).state
  pub same_next : (a : Ptr) → (a == pcb) ≡ false → (k'.pcbs a).next ≡ (k.pcbs a).next

sleep_before-Unlinked :
    (pcb x : Ptr) (k : Kernel)
    → (x == pcb) ≡ false
    → (k.pcbs x).prev ≢ null
    → Unlinked k pcb (sleep_before pcb x k)
unfolding sleep_before
sleep_before-Unlinked pcb x k ne nz =
    rw (ne, ==_self x, ==_ne (k.pcbs x).prev null nz)
      (record {
        same_dl = refl;
        state = rw (==_self pcb, ==_comm pcb x, ne) refl;
        same_next = λ a na. ground arith;
      })

Sleepers-some :
    (t : Pcbs) (back p : Ptr) (xs : List (Ptr × ℕ)) (y e : ℕ) (ys : List (Ptr × ℕ))
    → Sleepers t back p (xs ++ (y, e) ∷ ys)
    → p ≢ null
Sleepers-some t back p [] y e ys s z = s.1 (sym s.0 ∙ z)
Sleepers-some t back p ((x, d) ∷ xs) y e ys s z = s.1 (sym s.0 ∙ z)

-- The process that comes in, past a first one that wakes no later.
record Past (k : Kernel) (pcb n x d : ℕ) (zs : List (Ptr × ℕ)) : Type 0 where
  apart : (x == pcb) ≡ false
  entering : IsEntering (less pcb x k).pcbs pcb (n - d)
  rest : Sleepers (less pcb x k).pcbs x (k.pcbs x).next zs

past :
    (pcb n back p x d : ℕ) (zs : List (Ptr × ℕ)) (k : Kernel)
    → IsEntering k.pcbs pcb n
    → Sleepers k.pcbs back p ((x, d) ∷ zs)
    → pcb ∉ names ((x, d) ∷ zs)
    → d ≤ n
    → Past k pcb n x d zs
past pcb n back p x d zs k en s out h = record {
  apart = mem-apart pcb x (names ((x, d) ∷ zs)) out (ground (arith, ==_self x));
  entering = less-IsEntering pcb x k n d en s.3 h;
  rest =
      Sleepers-frame k.pcbs (less pcb x k).pcbs x (k.pcbs x).next zs
        (λ a m. less-other pcb x a k (mem-apart pcb a (names zs) (ground arith) m)) s.5;
}

Unlinked-step :
    (f pcb x : ℕ) (k : Kernel)
    → (x == pcb) ≡ false
    → x ≢ null
    → (k.pcbs x).tick ≤ (k.pcbs pcb).tick
    → (k.pcbs x).next ≢ null
    → ((k' : Kernel) × (sleep_loop f pcb (k.pcbs x).next (less pcb x k) ≡ some k')
        × Unlinked (less pcb x k) pcb k')
    → (k' : Kernel) × (sleep_loop (suc f) pcb x k ≡ some k') × Unlinked k pcb k'
Unlinked-step f pcb x k ne nz h nn (k', run, un) = (
  k',
  sleep_loop-next f pcb x (k.pcbs x).next k ne nz h refl nn ∙ run,
  record {
    same_dl = un.same_dl;
    state = un.state ∙ rw (==_self pcb) refl;
    same_next = λ a na. un.same_next a na ∙ ap (λ (c : Pcb). c.next) (less-other pcb x a k na);
  },
)

-- The processes of xs wake no later than the new one, and y wakes later.
loses :
    (f : ℕ) (pcb n back p : ℕ) (xs : List (Ptr × ℕ)) (y e : ℕ) (ys : List (Ptr × ℕ)) (k : Kernel)
    → length xs < f
    → IsEntering k.pcbs pcb n
    → back ≢ null
    → Sleepers k.pcbs back p (xs ++ (y, e) ∷ ys)
    → pcb ∉ names (xs ++ (y, e) ∷ ys)
    → total xs ≤ n
    → n < total xs + e
    → (k' : Kernel) × (sleep_loop f pcb p k ≡ some k') × Unlinked k pcb k'
loses zero pcb n back p xs y e ys k fuel en nz s out lo hi = absurd (omega arith)
loses (suc f) pcb n back p [] y e ys k fuel en nz s out lo hi = (
  sleep_before pcb y k,
  rw s.0 (sleep_loop-before f pcb y k s.1 (omega (arith, s.3, en.ticks))),
  sleep_before-Unlinked pcb y k
      (mem-apart pcb y (names ((y, e) ∷ ys)) out (ground (arith, ==_self y))) (rw s.2 nz),
)
loses (suc f) pcb n back p ((x, d) ∷ xs) y e ys k fuel en nz s out lo hi =
    let was = past pcb n back p x d (xs ++ (y, e) ∷ ys) k en s out (omega arith) in
    rw s.0 (
      Unlinked-step f pcb x k was.apart s.1 (omega (arith, s.3, en.ticks))
        (Sleepers-some k.pcbs x (k.pcbs x).next xs y e ys s.5)
        (loses f pcb (n - d) x (k.pcbs x).next xs y e ys (less pcb x k) (omega arith) was.entering
          s.1 was.rest (ground arith) (omega arith) (omega arith)))

-- From the front on, with a first process x.
pub loses_past :
    (f pcb n back p x d : ℕ) (xs : List (Ptr × ℕ)) (y e : ℕ) (ys : List (Ptr × ℕ)) (k : Kernel)
    → length xs < f
    → IsEntering k.pcbs pcb n
    → Sleepers k.pcbs back p ((x, d) ∷ xs ++ (y, e) ∷ ys)
    → pcb ∉ names ((x, d) ∷ xs ++ (y, e) ∷ ys)
    → d + total xs ≤ n
    → n < d + total xs + e
    → (k' : Kernel) × (sleep_loop (suc f) pcb p k ≡ some k') × Unlinked k pcb k'
loses_past f pcb n back p x d xs y e ys k fuel en s out lo hi =
    let was = past pcb n back p x d (xs ++ (y, e) ∷ ys) k en s out (omega arith) in
    rw s.0 (
      Unlinked-step f pcb x k was.apart s.1 (omega (arith, s.3, en.ticks))
        (Sleepers-some k.pcbs x (k.pcbs x).next xs y e ys s.5)
        (loses f pcb (n - d) x (k.pcbs x).next xs y e ys (less pcb x k) fuel was.entering s.1
          was.rest (ground arith) (omega arith) (omega arith)))
