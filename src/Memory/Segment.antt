-- ===== src/Memory/Segment.antt =====
-- Runs of free blocks that are linked both ways.
use xeros_kernel.Process.{null}
use xeros_kernel.Memory.{Header, Headers}
use xeros_kernel.Base.{
  last_or-mem, mem_ne, ◌∙◌, ap, refl, false, sym, ◌==◌, last_or, subst, arith, ◌≢◌, AllDistinct,
  ◌++◌, ◌∈◌, ◌≡◌, ◌∷◌, [], List, ℕ,
}

-- A free block: the address of its header, and its size.
abbrev pub Block : Type 0
Block = ℕ × ℕ

abbrev pub addresses : List Block → List ℕ
addresses [] = []
addresses ((a, s) ∷ xs) = a ∷ addresses xs

-- From p, behind the block `back`, the links lead through the blocks of xs to q, in front of which
-- is `last`.
abbrev pub Segment : Headers → ℕ → ℕ → List Block → ℕ → ℕ → Type 0
Segment t back p [] last q = (p ≡ q) × (back ≡ last)
Segment t back p ((a, s) ∷ xs) last q =
    (p ≡ a) × (a ≢ null) × ((t a).prev ≡ back) × ((t a).size ≡ s) × Segment t a (t a).next xs last q

-- The three fields of a header that count while the block is free.
abbrev pub Alike : Header → Header → Type 0
Alike c d = (c.size ≡ d.size) × (c.prev ≡ d.prev) × (c.next ≡ d.next)

pub Segment-frame :
    (t u : Headers) (back p : ℕ) (xs : List Block) (last q : ℕ)
    → ((a : ℕ) → a ∈ addresses xs → Alike (u a) (t a))
    → Segment t back p xs last q
    → Segment u back p xs last q
Segment-frame t u back p [] last q same w = w
Segment-frame t u back p ((a, s) ∷ xs) last q same (e, nz, b, n, w) =
    rw ((same a (ground arith)).0, (same a (ground arith)).1, (same a (ground arith)).2)
      (e, nz, b, n, Segment-frame t u a (t a).next xs last q (λ c m. same c (ground arith)) w)

pub Segment-append :
    (t : Headers) (back p : ℕ) (xs ys : List Block) (l r last q : ℕ)
    → Segment t back p xs l r
    → Segment t l r ys last q
    → Segment t back p (xs ++ ys) last q
Segment-append t back p [] ys l r last q (e, f) v =
    subst (λ z. Segment t back z ys last q) (sym e) (subst (λ z. Segment t z r ys last q) (sym f) v)
Segment-append t back p ((a, s) ∷ xs) ys l r last q (e, nz, b, n, w) v =
    (e, nz, b, n, Segment-append t a (t a).next xs ys l r last q w v)

pub Segment-split :
    (t : Headers) (back p : ℕ) (xs ys : List Block) (last q : ℕ)
    → Segment t back p (xs ++ ys) last q
    → (l : ℕ) × (r : ℕ) × Segment t back p xs l r × Segment t l r ys last q
Segment-split t back p [] ys last q w = (back, p, (refl, refl), w)
Segment-split t back p ((a, s) ∷ xs) ys last q (e, nz, b, n, w) =
    let (l, r, v, z) = Segment-split t a (t a).next xs ys last q w in (l, r, (e, nz, b, n, v), z)

-- In front of q is the last block, if there is one.
pub Segment-last :
    (t : Headers) (back p : ℕ) (xs : List Block) (last q : ℕ)
    → Segment t back p xs last q
    → last ≡ last_or back (addresses xs)
Segment-last t back p [] last q (e, f) = sym f
Segment-last t back p ((a, s) ∷ xs) last q (e, nz, b, n, w) =
    Segment-last t a (t a).next xs last q w

-- After `last->next = r` the blocks lead to r.
pub Segment-redirect :
    (t u : Headers) (back p a s : ℕ) (xs : List Block) (last q r : ℕ)
    → AllDistinct (addresses ((a, s) ∷ xs))
    → (u last).next ≡ r
    → ((c : ℕ)
        → c ∈ addresses ((a, s) ∷ xs)
        → ((u c).size ≡ (t c).size) × ((u c).prev ≡ (t c).prev))
    → ((c : ℕ) → (c == last) ≡ false → c ∈ addresses ((a, s) ∷ xs) → (u c).next ≡ (t c).next)
    → Segment t back p ((a, s) ∷ xs) last q
    → Segment u back p ((a, s) ∷ xs) last r
Segment-redirect t u back p a s [] last q r d now same others (e, nz, b, n, (f, g)) =
    rw ((same a (ground arith)).0, (same a (ground arith)).1)
      (e, nz, b, n, (ap (λ z. (u z).next) g ∙ now, g))
Segment-redirect t u back p a s ((y, z) ∷ ys) last q r d now same others (e, nz, b, n, w) =
    rw ((same a (ground arith)).0, (same a (ground arith)).1, others a apart (ground arith))
      (
        e,
        nz,
        b,
        n,
        Segment-redirect t u a (t a).next y z ys last q r d.1 now (λ c m. same c (ground arith))
            (λ c h m. others c h (ground arith)) w,
      )
  where
    apart : (a == last) ≡ false
    apart =
        mem_ne last a (y ∷ addresses ys)
          (subst (λ v. v ∈ (y ∷ addresses ys))
            (sym (Segment-last t a (t a).next ((y, z) ∷ ys) last q w))
            (last_or-mem y (addresses ys)))
          d.0
