-- ===== src/Memory/Relink.antt =====
-- Runs of free blocks between other neighbours than before.
use xeros_kernel.Memory.Walk.{rewind-front}
use mathlib.Core.Bool.{or_assoc}
use xeros_kernel.Process.{null}
use xeros_kernel.Memory.{rewind, Headers}
use xeros_kernel.Memory.Segment.{Segment-frame, Segment-redirect, addresses, Block, Segment}
use xeros_kernel.Base.{
  ◌||◌, has, length-append, subst, arith, mem_ne, refl, sym, ==_comm, ap, false, ◌==◌, some, ◌∈◌,
  ◌∙◌, ◌≡◌, ◌<◌, length, ◌≢◌, AllDistinct, List, ℕ, [], ◌∷◌, ◌++◌,
}

-- A run of blocks behind another block than before.
pub Segment-behind :
    (t u : Headers) (back back' p : ℕ) (ys : List Block) (last : ℕ)
    → AllDistinct (addresses ys)
    → (p ≢ null → (u p).prev ≡ back')
    → ((x : ℕ) → x ∈ addresses ys → (u x).size ≡ (t x).size)
    → ((x : ℕ) → x ∈ addresses ys → (u x).next ≡ (t x).next)
    → ((x : ℕ) → x ∈ addresses ys → (x == p) ≡ false → (u x).prev ≡ (t x).prev)
    → Segment t back p ys last null
    → (last' : ℕ) × Segment u back' p ys last' null
Segment-behind t u back back' p [] last d first sizes nexts prevs (e, f) = (back', (e, refl))
Segment-behind t u back back' p ((a, s) ∷ ys) last d first sizes nexts prevs (e, nz, b, n, w) = (
  last,
  (
    e,
    nz,
    ap (λ z. (u z).prev) (sym e) ∙ first (λ z. nz (sym e ∙ z)),
    sizes a (ground arith) ∙ n,
    subst (λ z. Segment u a z ys last null) (sym (nexts a (ground arith)))
        (Segment-frame t u a (t a).next ys last null
          (λ x m.
            (sizes x (ground arith), prevs x (ground arith) (apart x m), nexts x (ground arith)))
          w),
  ),
)
  where
    apart : (x : ℕ) → x ∈ addresses ys → (x == p) ≡ false
    apart x m = rw e (==_comm x a ∙ mem_ne x a (addresses ys) m d.0)

Segment-not_null :
    (t : Headers) (back p a s : ℕ) (xs : List Block) (last q : ℕ)
    → Segment t back p ((a, s) ∷ xs) last q
    → last ≢ null
Segment-not_null t back p a s [] last q (e, nz, b, n, (f, g)) z = nz (g ∙ z)
Segment-not_null t back p a s ((y, v) ∷ ys) last q (e, nz, b, n, w) z =
    Segment-not_null t a (t a).next y v ys last q w z

-- A run of blocks in front of another block than before.
pub Segment-front :
    (t u : Headers) (p : ℕ) (xs : List Block) (last q r : ℕ)
    → AllDistinct (addresses xs)
    → (last ≢ null → (u last).next ≡ r)
    → ((x : ℕ) → x ∈ addresses xs → (u x).size ≡ (t x).size)
    → ((x : ℕ) → x ∈ addresses xs → (u x).prev ≡ (t x).prev)
    → ((x : ℕ) → x ∈ addresses xs → (x == last) ≡ false → (u x).next ≡ (t x).next)
    → Segment t null p xs last q
    → (p' : ℕ) × Segment u null p' xs last r
Segment-front t u p [] last q r d now sizes prevs nexts (e, f) = (r, (refl, f))
Segment-front t u p ((a, s) ∷ xs) last q r d now sizes prevs nexts w = (
  p,
  Segment-redirect t u null p a s xs last q r d (now (Segment-not_null t null p a s xs last q w))
      (λ x m. (sizes x m, prevs x m)) (λ x h m. nexts x m h) w,
)

-- The way back from the last block of a run.
pub rewind-run_front :
    (f : ℕ) (t : Headers) (p : ℕ) (xs : List Block) (c z q : ℕ)
    → length xs < f
    → Segment t null p (xs ++ (c, z) ∷ []) c q
    → rewind f t c ≡ some p
rewind-run_front f t p [] c z q h w = rewind-front f t p c z [] c q h w ∙ ap some (sym w.0)
rewind-run_front f t p ((x, s) ∷ xs) c z q h w =
    rewind-front f t p x s (xs ++ (c, z) ∷ []) c q longer w ∙ ap some (sym w.0)
  where
    longer : length (xs ++ (c, z) ∷ []) < f
    longer = omega (arith, length-append xs ((c, z) ∷ []))

mem-append :
    (c : ℕ) (xs ys : List Block)
    → has c (addresses (xs ++ ys)) ≡ (has c (addresses xs) || has c (addresses ys))
mem-append c [] ys = refl
mem-append c ((x, s) ∷ xs) ys = rw (mem-append c xs ys, or_assoc)

pub mem-left : (c : ℕ) (xs ys : List Block) → c ∈ addresses xs → c ∈ addresses (xs ++ ys)
mem-left c xs ys m = rw (mem-append c xs ys, m)

pub mem-right : (c : ℕ) (xs ys : List Block) → c ∈ addresses ys → c ∈ addresses (xs ++ ys)
mem-right c xs ys m = rw (mem-append c xs ys, m) (ground arith)
