-- ===== src/Base/Lists.antt =====
-- Lists measured by native numbers, under the library's names, and lists of distinct numbers.
use Prim.Native.Nat.{ℕ, zero, suc, ◌+◌}
use mathlib.Core.Path.{◌≡◌, refl, sym, subst}
use mathlib.Core.Logic.{inl, inr}
use mathlib.Core.Bool.{Bool, true, false, ◌||◌, or_assoc}
use mathlib.Core.List.{List, [], ◌∷◌, ◌++◌}
use native.Mathlib.Omega.{arith}
use xeros_kernel.Base.Tests.{◌==◌, ==_iff, Bool-cases}

module _ {ℓ} {A : Type ℓ} where
  abbrev pub length : List A → ℕ
  length [] = 0
  length (x ∷ xs) = suc (length xs)

  abbrev pub get_or : List A → ℕ → A → A
  get_or [] i d = d
  get_or (x ∷ xs) zero d = x
  get_or (x ∷ xs) (suc i) d = get_or xs i d

  abbrev pub take : ℕ → List A → List A
  take zero xs = []
  take (suc n) [] = []
  take (suc n) (x ∷ xs) = x ∷ take n xs

  abbrev pub drop : ℕ → List A → List A
  drop zero xs = xs
  drop (suc n) [] = []
  drop (suc n) (x ∷ xs) = drop n xs

  pub length-append : (xs ys : List A) → length (xs ++ ys) ≡ length xs + length ys
  length-append [] ys = omega arith
  length-append (x ∷ xs) ys = omega (arith, length-append xs ys)

-- A predicate of every entry.
abbrev pub All {ℓ κ} : {A : Type ℓ} → (A → Type κ) → List A → Type κ
All P [] = Unit
All P (x ∷ xs) = P x × All P xs

abbrev pub has : ℕ → List ℕ → Bool
has a [] = false
has a (x ∷ xs) = (a == x) || has a xs

infix 40 ◌∈◌ ◌∉◌
abbrev pub ◌∈◌ : ℕ → List ℕ → Type 0
a ∈ xs = has a xs ≡ true

abbrev pub ◌∉◌ : ℕ → List ℕ → Type 0
a ∉ xs = has a xs ≡ false

abbrev pub AllDistinct : List ℕ → Type 0
AllDistinct [] = Unit {0}
AllDistinct (x ∷ xs) = (x ∉ xs) × AllDistinct xs

pub has-append : (a : ℕ) (xs ys : List ℕ) → has a (xs ++ ys) ≡ (has a xs || has a ys)
has-append a [] ys = refl
has-append a (x ∷ xs) ys = rw (has-append a xs ys, or_assoc)

pub AllDistinct-append_one :
    (xs : List ℕ) (a : ℕ) → AllDistinct xs → a ∉ xs → AllDistinct (xs ++ a ∷ [])
AllDistinct-append_one [] a d out = (refl, tt)
AllDistinct-append_one (x ∷ xs) a d out =
    (ground (arith, has-append x xs (a ∷ [])), AllDistinct-append_one xs a d.1 (ground arith))

pub All-append_one {κ} :
    (P : ℕ → Type κ) (xs : List ℕ) (a : ℕ) → All P xs → P a → All P (xs ++ a ∷ [])
All-append_one P [] a h p = (p, tt)
All-append_one P (x ∷ xs) a h p = (h.0, All-append_one P xs a h.1 p)

-- The last entry, or `d` if there is none.
abbrev pub last_or : ℕ → List ℕ → ℕ
last_or d [] = d
last_or d (x ∷ xs) = last_or x xs

pub last_or-mem : (x : ℕ) (xs : List ℕ) → last_or x xs ∈ (x ∷ xs)
last_or-mem x [] = ground arith
last_or-mem x (y ∷ ys) = ground (arith, last_or-mem y ys)

pub mem_ne : (a b : ℕ) (xs : List ℕ) → a ∈ xs → b ∉ xs → (b == a) ≡ false
mem_ne a b [] h out = cc
mem_ne a b (x ∷ xs) h out = ground (arith, mem_ne a b xs)

pub last_or-append_one : (d : ℕ) (xs : List ℕ) (a : ℕ) → last_or d (xs ++ a ∷ []) ≡ a
last_or-append_one d [] a = refl
last_or-append_one d (x ∷ xs) a = last_or-append_one x xs a

-- What holds of every entry holds of a member.
pub All-mem {κ} : (P : ℕ → Type κ) (a : ℕ) (xs : List ℕ) → All P xs → a ∈ xs → P a
All-mem P a [] h m = cc
All-mem P a (x ∷ xs) h m = elim (Bool-cases (a == x)) [
  | inl e ↦ subst P (sym ((==_iff a x).0 e)) h.0
  | inr e ↦ All-mem P a xs h.1 (ground arith)
]
