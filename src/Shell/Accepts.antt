-- ===== src/Shell/Accepts.antt =====
-- Which lines the login of c/user.c accepts.
use mathlib.Core.Path.{ap₂}
use xeros_kernel.Shell.Login.{same_start, password, user, same_prefix, verify}
use xeros_kernel.Shell.Tokenizer.{Text}
use xeros_kernel.Base.{
  lt→leb, is_neg, ◌^◌, length, ◌<◌, ◌++◌, ap, false, ==_iff, ◌&&◌, ◌==◌, sub32, Bool, refl, arith,
  ◌↔◌, true, ◌≡◌, zero, suc, List, ℕ, [], ◌∷◌,
}

-- The n characters of a text from place i on.
pub typed : ℕ → ℕ → Text → List ℕ
typed zero i s = []
typed (suc n) i s = s i ∷ typed n (suc i) s

-- The first n characters of a list, or all there are.
pub first : ℕ → List ℕ → List ℕ
first zero cs = []
first (suc n) [] = []
first (suc n) (c ∷ cs) = c ∷ first n cs

-- The n characters of a line agree with a literal: they are its first ones, as many as were typed,
-- and for a longer line its characters are followed by a 0.
abbrev pub Fits : List ℕ → ℕ → Text → Type 0
Fits cs n s = let expected = first n (cs ++ 0 ∷ []) in typed (length expected) 0 s ≡ expected

both : (a b : Bool) → (a && b) ≡ true → (a ≡ true) × (b ≡ true)
both true b h = (refl, h)
both false b h = absurd (ground (arith, h))

head_of : List ℕ → ℕ
head_of [] = 0
head_of (c ∷ cs) = c

tail_of : List ℕ → List ℕ
tail_of [] = []
tail_of (c ∷ cs) = cs

same_prefix-first :
    (cs : List ℕ) (n i : ℕ) (s : Text)
    → let expected = first n (cs ++ 0 ∷ []) in
      (same_prefix cs n s i ≡ true) ↔ (typed (length expected) i s ≡ expected)
unfolding typed first head_of tail_of
same_prefix-first cs zero i s = (λ _. refl, λ _. refl)
same_prefix-first [] (suc zero) i s =
    (λ h. ap (λ c. c ∷ []) ((==_iff (s i) 0).0 h), λ h. (==_iff (s i) 0).1 (ap head_of h))
same_prefix-first [] (suc (suc n)) i s =
    (λ h. ap (λ c. c ∷ []) ((==_iff (s i) 0).0 h), λ h. (==_iff (s i) 0).1 (ap head_of h))
same_prefix-first (c ∷ cs) (suc n) i s =
    let (f, g) = same_prefix-first cs n (suc i) s in
    (
      λ h.
          let (q, r) = both (s i == c) (same_prefix cs n s (suc i)) h in
          ap₂ ◌∷◌ ((==_iff (s i) c).0 q) (f r),
      λ h. rw ((==_iff (s i) c).1 (ap head_of h), g (ap tail_of h)) refl,
    )

same_start-Fits :
    (cs : List ℕ) (n : ℕ) (s : Text)
    → n < 2 ^ 31
    → (same_start cs (sub32 (suc n) 1) s ≡ true) ↔ Fits cs n s
same_start-Fits cs n s h =
    let e : sub32 (suc n) 1 ≡ n = omega (arith, h) in
    let pos : is_neg n ≡ false = lt→leb (2 ^ 31) n h in rw (e, pos) (same_prefix-first cs n 0 s)

-- For lines of n and m characters before the newline, n and m below 2 ^ 31, the login accepts them
-- if and only if each fits the name and the password: as far as the literal goes the line has its
-- characters, as many as were typed, and a line that goes on has a 0 behind them.
pub verify-Fits :
    (n m : ℕ) (u p : Text)
    → n < 2 ^ 31
    → m < 2 ^ 31
    → (verify (suc n) u (suc m) p ≡ true) ↔ (Fits user n u × Fits password m p)
unfolding verify
verify-Fits n m u p h h' =
    let (f, g) = same_start-Fits user n u h in
    let (f', g') = same_start-Fits password m p h' in
    let a = same_start user (sub32 (suc n) 1) u in
    let b = same_start password (sub32 (suc m) 1) p in
    (λ e. let (q, r) = both a b e in (f q, f' r), λ (q, r). ap₂ ◌&&◌ (g q) (g' r))
