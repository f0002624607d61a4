-- ===== src/Signals/Bits.antt =====
-- The bits that `getsig` and `getsig_low` find, and the masks that `signal` makes.
use xeros_kernel.Signals.{getsig, getsig_loop, getsig_low}
use native.Mathlib.Nat.{pow-suc}
use xeros_kernel.Base.{
  ◌≢◌, ◌%◌, ◌/◌, false, inr, inl, bit_set, Bool-cases, le→ltb, ◌&&◌, zero, sar, ◌||◌, arith, suc,
  refl, ◌*◌, shl, ltb, ==_iff, ◌==◌, ◌-◌, true, ◌≤◌, ◌≡◌, ◌<◌, ◌^◌, Bool, ℕ,
}

-- A test of every number below n.
all_below : ℕ → (ℕ → Bool) → Bool
all_below zero p = true
all_below (suc n) p = p n && all_below n p

all_below-at : (n : ℕ) (p : ℕ → Bool) (x : ℕ) → all_below n p ≡ true → x < n → p x ≡ true
unfolding all_below
all_below-at zero p x h lt = absurd (omega arith)
all_below-at (suc n) p x h lt = ground (arith, all_below-at n p x)

-- The mask that lets through the signals from m on.
abbrev pub mask_from : ℕ → ℕ
mask_from m = 2 ^ 32 - 2 ^ m

low_table : all_below 32 (λ m. getsig_low (mask_from m) == m) ≡ true
unfolding all_below getsig_low
low_table = refl

pub getsig_low-mask_from : (m : ℕ) → m < 32 → getsig_low (mask_from m) ≡ m
getsig_low-mask_from m h =
    (==_iff _ m).0 (all_below-at 32 (λ m. getsig_low (mask_from m) == m) m low_table h)

abbrev shifts_back : ℕ → ℕ → Bool
shifts_back g m =
    ltb g m
    || (shl (mask_from m) (g - m) == mask_from g && sar (mask_from g) (g - m) == mask_from m)

shift_table : all_below 32 (λ g. all_below 32 (shifts_back g)) ≡ true
unfolding all_below
shift_table = refl

-- Raising the mask to signal g, and lowering it again.
pub mask_shifts :
    (m g : ℕ)
    → m ≤ g
    → g < 32
    → (shl (mask_from m) (g - m) ≡ mask_from g) × (sar (mask_from g) (g - m) ≡ mask_from m)
mask_shifts m g le h = ((==_iff _ (mask_from g)).0 both.0, (==_iff _ (mask_from m)).0 both.1)
  where
    and-true : (a b : Bool) → (a && b) ≡ true → (a ≡ true) × (b ≡ true)
    and-true true b e = (refl, e)
    and-true false b e = cc

    entry : shifts_back g m ≡ true
    entry =
        all_below-at 32 (shifts_back g) m
          (all_below-at 32 (λ i. all_below 32 (shifts_back i)) g shift_table h) (omega arith)

    right : (b : Bool) → (ltb g m || b) ≡ true → b ≡ true
    right b = rw (le→ltb g m le) (λ e. e)

    both :
        ((shl (mask_from m) (g - m) == mask_from g) ≡ true)
        × ((sar (mask_from g) (g - m) == mask_from m) ≡ true)
    both = and-true _ _ (right _ entry)

-- Where bit r is the highest: shifted up by 31 - r, the word has its top bit on and loses nothing.
pub record IsTop (n bits r : ℕ) : Type 0 where
  pub below : r < n
  pub on : 2 ^ 31 ≤ bits * 2 ^ (n - 1 - r)
  pub fits : bits * 2 ^ (n - 1 - r) < 2 ^ 32

double-pow : (b e : ℕ) → (b * 2) * 2 ^ e ≡ b * 2 ^ suc e
double-pow b e = rw pow-suc (omega arith)

high_bit : (b : ℕ) → b < 2 ^ 32 → bit_set b 31 ≡ true → 2 ^ 31 ≤ b
high_bit b h e = omega (arith, (==_iff ((b / 2 ^ 31) % 2) 1).0 e)

no_high_bit : (b : ℕ) → b < 2 ^ 32 → bit_set b 31 ≡ false → b < 2 ^ 31
no_high_bit b h e = ground arith

IsTop-step : (i b r : ℕ) → b < 2 ^ 31 → IsTop i (shl b 1) r → IsTop (suc i) b r
IsTop-step i b r h t = record {
  below = omega (arith, t.below);
  on = rw (shift, ← double-pow b (i - 1 - r), ← twice) t.on;
  fits = rw (shift, ← double-pow b (i - 1 - r), ← twice) t.fits;
}
  where
    shift : suc i - 1 - r ≡ suc (i - 1 - r)
    shift = omega (arith, t.below)

    twice : shl b 1 ≡ b * 2
    twice = omega arith

last : (i : ℕ) → suc i - 1 - i ≡ 0
last i = omega arith

enough : (i b : ℕ) → b < 2 ^ 31 → 2 ^ 32 ≤ b * 2 ^ suc i → 2 ^ 32 ≤ shl b 1 * 2 ^ i
enough i b h e = rw twice (rw (double-pow b i) e)
  where
    twice : shl b 1 ≡ b * 2
    twice = omega arith

getsig_loop-IsTop :
    (n bits : ℕ) → bits < 2 ^ 32 → 2 ^ 32 ≤ bits * 2 ^ n → IsTop n bits (getsig_loop n bits)
unfolding getsig_loop
getsig_loop-IsTop zero bits h some = absurd (omega arith)
getsig_loop-IsTop (suc i) bits h some = elim (Bool-cases (bit_set bits 31)) [
  | inl e ↦ rw e (record {
    below = omega arith;
    on = rw (last i) (omega (arith, high_bit bits h e));
    fits = rw (last i) (omega arith);
  })
  | inr e ↦ rw e (
      IsTop-step i bits (getsig_loop i (shl bits 1)) (no_high_bit bits h e) (
        getsig_loop-IsTop i (shl bits 1) (omega arith) (enough i bits (no_high_bit bits h e) some)))
]

-- For a 32-bit word that is not 0, `getsig` returns the highest bit that is on.
getsig-IsTop : (bits : ℕ) → bits < 2 ^ 32 → bits ≢ 0 → IsTop 32 bits (getsig bits)
unfolding getsig
getsig-IsTop bits h ne = getsig_loop-IsTop 32 bits h (omega arith)
