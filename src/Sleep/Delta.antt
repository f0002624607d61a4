-- ===== src/Sleep/Delta.antt =====
-- The delta list as a list of processes with the ticks between them.
use xeros_kernel.Process.Chain.{Chain}
use xeros_kernel.Process.{pq_size, null, sleep, Ptr, Kernel, Pcbs, Pcb}
use xeros_kernel.Base.{refl, ◌++◌, arith, ◌+◌, ◌∷◌, [], ◌≢◌, AllDistinct, ◌<◌, ◌∈◌, ◌≡◌, List, ℕ}

-- A process that may be woken.
pub record IsAsleep (c : Pcb) : Type 0 where
  pub state : c.state ≡ sleep
  pub priority : c.priority < pq_size
  pub pid : c.pid ≢ 0

-- From p, whose `prev` field is `back`, the links lead through these processes.
abbrev pub Sleepers : Pcbs → Ptr → Ptr → List (Ptr × ℕ) → Type 0
Sleepers t back p [] = p ≡ null
Sleepers t back p ((x, d) ∷ xs) =
    (p ≡ x)
    × (x ≢ null)
    × ((t x).prev ≡ back)
    × ((t x).tick ≡ d)
    × IsAsleep (t x)
    × Sleepers t x (t x).next xs

abbrev pub names : List (Ptr × ℕ) → List Ptr
names [] = []
names ((x, d) ∷ xs) = x ∷ names xs

-- The ticks until the last process of the list wakes.
abbrev pub total : List (Ptr × ℕ) → ℕ
total [] = 0
total ((x, d) ∷ xs) = d + total xs

-- The kernel's delta list is xs.
pub record IsDelta (k : Kernel) (xs : List (Ptr × ℕ)) : Type 0 where
  pub list : Sleepers k.pcbs null k.dl xs
  pub distinct : AllDistinct (names xs)

-- Changes to other processes do not matter.
pub Sleepers-frame :
    (t u : Pcbs) (back p : Ptr) (xs : List (Ptr × ℕ))
    → ((a : Ptr) → a ∈ names xs → u a ≡ t a)
    → Sleepers t back p xs
    → Sleepers u back p xs
Sleepers-frame t u back p [] same s = s
Sleepers-frame t u back p ((x, d) ∷ xs) same (e, nz, b, n, z, s) =
    rw (same x (ground arith))
      (e, nz, b, n, z, Sleepers-frame t u x (t x).next xs (λ a m. same a (ground arith)) s)

pub names-append : (xs ys : List (Ptr × ℕ)) → names (xs ++ ys) ≡ names xs ++ names ys
names-append [] ys = refl
names-append ((x, d) ∷ xs) ys = rw (names-append xs ys)

-- The `next` fields alone.
pub Sleepers-Chain :
    (t : Pcbs) (back p : Ptr) (xs : List (Ptr × ℕ)) → Sleepers t back p xs → Chain t p (names xs)
Sleepers-Chain t back p [] s = s
Sleepers-Chain t back p ((x, d) ∷ xs) s = (s.0, s.1, Sleepers-Chain t x (t x).next xs s.5)
