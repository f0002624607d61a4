-- ===== src/Memory/Apart.antt =====
-- Blocks in the order of their addresses, with a gap between any two of them.
use xeros_kernel.Process.{null}
use xeros_kernel.Memory.{Heap}
use xeros_kernel.Memory.Segment.{Segment, Block, addresses}
use xeros_kernel.Base.{
  sym, inr, ==_iff, subst, inl, ◌≡◌, has, ◌==◌, ◌+◌, Bool-cases, ◌^◌, ◌≤◌, arith, AllDistinct, ◌∈◌,
  ◌<◌, List, ℕ, [], ◌∷◌, ◌++◌,
}

-- Blocks above `low`, none of which ends where the next one starts, all below 2 ^ 32.
abbrev pub Apart : ℕ → List Block → Type 0
Apart low [] = low < 2 ^ 32
Apart low ((a, s) ∷ xs) = (low < a) × Apart (a + s + 16) xs

-- The heap's free blocks are those of xs.
pub record IsFree (h : Heap) (xs : List Block) : Type 0 where
  pub last : ℕ
  pub list : Segment h.headers null h.mem_list xs last null
  pub apart : Apart 0 xs

pub Apart-bound : (low : ℕ) (xs : List Block) → Apart low xs → low < 2 ^ 32
Apart-bound low [] w = w
Apart-bound low ((a, s) ∷ xs) (h, w) = omega (arith, Apart-bound (a + s + 16) xs w)

pub Apart-above : (low : ℕ) (xs : List Block) (c : ℕ) → Apart low xs → c ∈ addresses xs → low < c
Apart-above low [] c w m = ground arith
Apart-above low ((a, s) ∷ xs) c (h, w) m = elim (Bool-cases (c == a)) [
  | inl e ↦ ground (arith, (==_iff c a).0 e)
  | inr e ↦ omega (arith, Apart-above (a + s + 16) xs c w (ground arith))
]

pub Apart-below :
    (low : ℕ) (xs : List Block) (a s : ℕ) (ys : List Block) (c : ℕ)
    → Apart low (xs ++ (a, s) ∷ ys)
    → c ∈ addresses xs
    → c < a
Apart-below low [] a s ys c w m = ground arith
Apart-below low ((x, z) ∷ xs) a s ys c (h, w) m = elim (Bool-cases (c == x)) [
  | inl e ↦ omega (arith, (==_iff c x).0 e, first (x + z + 16) xs w)
  | inr e ↦ Apart-below (x + z + 16) xs a s ys c w (ground arith)
]
  where
    first : (l : ℕ) (vs : List Block) → Apart l (vs ++ (a, s) ∷ ys) → l < a
    first l [] v = v.0
    first l ((b, y) ∷ vs) v = omega (arith, v.0, first (b + y + 16) vs v.1)

pub Apart-drop :
    (low : ℕ) (xs : List Block) (a s : ℕ) (ys : List Block)
    → Apart low (xs ++ (a, s) ∷ ys)
    → (low < a) × Apart (a + s + 16) ys
Apart-drop low [] a s ys w = w
Apart-drop low ((x, z) ∷ xs) a s ys (h, w) =
    let v = Apart-drop (x + z + 16) xs a s ys w in (omega (arith, v.0), v.1)

pub Apart-distinct : (low : ℕ) (xs : List Block) → Apart low xs → AllDistinct (addresses xs)
Apart-distinct low [] w = tt
Apart-distinct low ((a, s) ∷ xs) (h, w) = (
  elim (Bool-cases (has a (addresses xs))) [
    | inl m ↦ absurd (omega (arith, Apart-above (a + s + 16) xs a w m))
    | inr m ↦ m
  ],
  Apart-distinct (a + s + 16) xs w,
)

pub Apart-take :
    (low : ℕ) (xs : List Block) (a s : ℕ) (ys : List Block)
    → Apart low (xs ++ (a, s) ∷ ys)
    → Apart low xs
Apart-take low [] a s ys w = omega (arith, Apart-bound low ((a, s) ∷ ys) w)
Apart-take low ((x, z) ∷ xs) a s ys (h, w) = (h, Apart-take (x + z + 16) xs a s ys w)

-- A block may lose its front.
pub Apart-shrink :
    (low : ℕ) (xs : List Block) (a s c z : ℕ) (ys : List Block)
    → Apart low (xs ++ (a, s) ∷ ys)
    → a ≤ c
    → c + z ≡ a + s
    → Apart low (xs ++ (c, z) ∷ ys)
Apart-shrink low [] a s c z ys (h, w) le e = (omega arith, subst (λ i. Apart (i + 16) ys) (sym e) w)
Apart-shrink low ((x, y) ∷ xs) a s c z ys (h, w) le e =
    (h, Apart-shrink (x + y + 16) xs a s c z ys w le e)
