-- ===== src/Memory/Walk.antt =====
-- The loops of the memory manager that follow pointers.
use xeros_kernel.Process.{null}
use xeros_kernel.Memory.Segment.{Segment, Block}
use xeros_kernel.Memory.{Headers, rewind, find_mem_slot}
use xeros_kernel.Base.{
  [], false, ◌-◌, ◌==◌, zero, ◌∙◌, ==_ne, lt→leb, le→leb, sym, arith, ap, some, suc, ◌≡◌, ◌≤◌, ◌+◌,
  ◌∷◌, ◌++◌, ◌<◌, ◌≢◌, length, All, List, ℕ,
}

-- No block of the list holds `size` bytes.
abbrev pub AllSmall : ℕ → List Block → Type 0
AllSmall size = All λ b. b.1 < size

pub find_mem_slot-first :
    (f : ℕ) (t : Headers) (back p size : ℕ) (xs : List Block) (a s : ℕ) (ys : List Block) (last : ℕ)
    → length xs < f
    → Segment t back p (xs ++ (a, s) ∷ ys) last null
    → AllSmall size xs
    → size ≤ s
    → find_mem_slot f t p size ≡ some a
unfolding find_mem_slot
find_mem_slot-first zero t back p size xs a s ys last h w small room = absurd (omega arith)
find_mem_slot-first (suc f) t back p size [] a s ys last h (e, nz, b, n, w) small room =
    rw (e, n, le→leb size s room)
find_mem_slot-first (suc f) t back p size ((x, z) ∷ xs) a s ys last h (e, nz, b, n, w) small room =
    rw (e, n, lt→leb size z small.0, going xs w)
      (find_mem_slot-first f t x (t x).next size xs a s ys last (omega arith) w small.1 room)
  where
    going :
        (vs : List Block)
        → Segment t x (t x).next (vs ++ (a, s) ∷ ys) last null
        → ((t x).next == null) ≡ false
    going [] v = ==_ne _ _ (λ y. v.1 (sym v.0 ∙ y))
    going ((v, c) ∷ vs) k = ==_ne _ _ (λ y. k.1 (sym k.0 ∙ y))

pub find_mem_slot-none :
    (f : ℕ) (t : Headers) (back p size : ℕ) (x z : ℕ) (xs : List Block) (last : ℕ)
    → length xs < f
    → Segment t back p ((x, z) ∷ xs) last null
    → AllSmall size ((x, z) ∷ xs)
    → find_mem_slot f t p size ≡ some null
unfolding find_mem_slot
find_mem_slot-none zero t back p size x z xs last h w small = absurd (omega arith)
find_mem_slot-none (suc f) t back p size x z [] last h (e, nz, b, n, (g, w)) small =
    rw (e, n, lt→leb size z small.0, g)
find_mem_slot-none (suc f) t back p size x z ((y, v) ∷ ys) last h (e, nz, b, n, w) small =
    rw (e, n, lt→leb size z small.0, ==_ne (t x).next null (λ i. w.1 (sym w.0 ∙ i)))
      (find_mem_slot-none f t x (t x).next size y v ys last (omega arith) w small.1)

-- From the last block of a run the way back leads past the first.
rewind-run :
    (t : Headers) (back p : ℕ) (xs : List Block) (last q g : ℕ)
    → back ≢ null
    → Segment t back p xs last q
    → rewind (length xs + suc g) t last ≡ rewind (suc g) t back
unfolding rewind
rewind-run t back p [] last q g nz (e, f) =
    ap (λ i. rewind i t last) {y = suc g} (omega arith) ∙ ap (rewind (suc g) t) (sym f)
rewind-run t back p ((a, s) ∷ xs) last q g nz (e, na, b, n, w) =
    ap (λ i. rewind i t last) (omega arith)
    ∙ rewind-run t a (t a).next xs last q (suc g) na w
    ∙ step
  where
    step : rewind (suc (suc g)) t a ≡ rewind (suc g) t back
    step = rw (b, ==_ne back null nz)

pub rewind-front :
    (f : ℕ) (t : Headers) (p a s : ℕ) (xs : List Block) (last q : ℕ)
    → length xs < f
    → Segment t null p ((a, s) ∷ xs) last q
    → rewind f t last ≡ some a
unfolding rewind
rewind-front f t p a s xs last q h (e, na, b, n, w) =
    ap (λ i. rewind i t last) (omega arith)
    ∙ rewind-run t a (t a).next xs last q (f - length xs - 1) na w
    ∙ stop (f - length xs - 1)
  where
    stop : (i : ℕ) → rewind (suc i) t a ≡ some a
    stop i = rw b
