-- ===== src/Process/Chain.antt =====
-- Linked lists of process control blocks: from a pointer the `next` fields lead through the
-- processes of a list to NULL.
use xeros_kernel.Base.{
  ◌≡◌, ◌≢◌, List, [], ◌∷◌, ◌++◌, false, ◌==◌, arith, ◌∈◌, AllDistinct, last_or, last_or-mem, mem_ne,
}
use xeros_kernel.Process.{Ptr, null, Pcbs}

abbrev pub Chain : Pcbs → Ptr → List Ptr → Type 0
Chain t p [] = p ≡ null
Chain t p (x ∷ xs) = (p ≡ x) × (x ≢ null) × Chain t (t x).next xs

-- A chain survives a change that spares the `next` fields of its members.
pub Chain-frame :
    (t u : Pcbs) (p : Ptr) (xs : List Ptr)
    → ((a : Ptr) → a ∈ xs → (u a).next ≡ (t a).next)
    → Chain t p xs
    → Chain u p xs
Chain-frame t u p [] same c = c
Chain-frame t u p (x ∷ xs) same (e, nz, c) = (
  e,
  nz,
  rw (same x (ground arith)) (Chain-frame t u (t x).next xs (λ a h. same a (ground arith)) c),
)

-- After `last->next = q` the chain goes on to q.
pub Chain-extend :
    (t u : Pcbs) (p x : Ptr) (xs : List Ptr) (q : Ptr)
    → q ≢ null
    → (u q).next ≡ null
    → (u (last_or x xs)).next ≡ q
    → ((a : Ptr) → (a == last_or x xs) ≡ false → a ∈ (x ∷ xs) → (u a).next ≡ (t a).next)
    → AllDistinct (x ∷ xs)
    → Chain t p (x ∷ xs)
    → Chain u p (x ∷ xs ++ q ∷ [])
Chain-extend t u p x [] q nz e l same d (h, nx, c) = (h, nx, (l, nz, e))
Chain-extend t u p x (y ∷ ys) q nz e l same d (h, nx, c) = (
  h,
  nx,
  rw (same x (mem_ne (last_or y ys) x (y ∷ ys) (last_or-mem y ys) d.0) (ground arith))
      (Chain-extend t u (t x).next y ys q nz e l (λ a n m. same a n (ground arith)) d.1 c),
)
