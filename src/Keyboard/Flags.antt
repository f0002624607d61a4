-- ===== src/Keyboard/Flags.antt =====
-- The flags of the modifier keys under `kbtoa`. The escape code 0xe0 has the bit KEY_UP, so that
-- the case for it is never reached.
use xeros_kernel.Keyboard.Scan.{
  inshift, capslock, inctl, inmeta, translate, other_key, nochar, extended, escape, modifier, flag,
  kbtoa, Modifier, key_up,
}
use xeros_kernel.Base.{
  refl, ==_ne, ◌||◌, ◌==◌, true, if◌then◌else◌, Bool, ◌%◌, inr, false, inl, leb, bit_on, arith,
  Bool-cases, bit_set, ◌⊎◌, ◌≤◌, ◌≡◌, ◌<◌, bit_off, ℕ,
}

bit_off-le : (s i : ℕ) → bit_off s i ≤ s
bit_off-le s i = ground arith

key_up-le : (code s : ℕ) → key_up code s ≤ s
unfolding key_up
key_up-le code s =
    elim (modifier code)
      as (λ v. elim v as (λ _. ℕ) [ flag i ↦ bit_off s i | escape ↦ s | other_key ↦ s ] ≤ s) [
        | flag i ↦ bit_off-le s i
        | escape ↦ omega arith
        | other_key ↦ omega arith
      ]

-- The flag that a modifier key below KEY_UP sets is one of the four lowest.
abbrev IsLow : Modifier → Type 0
IsLow (flag i) = (i ≡ 0) ⊎ (i ≡ 1) ⊎ (i ≡ 2) ⊎ (i ≡ 3)
IsLow escape = ⊥
IsLow other_key = Unit {0}

if-IsLow : (b : Bool) (v w : Modifier) → IsLow v → IsLow w → IsLow (if b then v else w)
if-IsLow true v w k l = k
if-IsLow false v w k l = l

modifier-IsLow : (code : ℕ) → code < 128 → IsLow (modifier code)
modifier-IsLow code h =
    let last = if code == 224 then escape else other_key in
    let meta = if code == 56 then flag inmeta else last in
    let control = if code == 29 then flag inctl else meta in
    let caps = if code == 58 then flag capslock else control in
    if-IsLow ((code == 42) || (code == 54)) (flag inshift) caps (inr (inl refl)) (
      if-IsLow (code == 58) (flag capslock) control (inr (inr (inl refl))) (
        if-IsLow (code == 29) (flag inctl) meta (inl refl) (
          if-IsLow (code == 56) (flag inmeta) last (inr (inr (inr refl)))
            (rw (==_ne code 224 (omega arith)) tt))))

bit_on-lt : (s i : ℕ) → (i ≡ 0) ⊎ (i ≡ 1) ⊎ (i ≡ 2) ⊎ (i ≡ 3) → s < 16 → bit_on s i < 16
bit_on-lt s i (inl e) h = rw e (ground arith)
bit_on-lt s i (inr (inl e)) h = rw e (ground arith)
bit_on-lt s i (inr (inr (inl e))) h = rw e (ground arith)
bit_on-lt s i (inr (inr (inr e))) h = rw e (ground arith)

not_extended : (s : ℕ) → s < 16 → bit_set s extended ≡ false
not_extended s h = ground arith

pressed :
    (code s : ℕ) (v : Modifier)
    → IsLow v
    → s < 16
    → (elim v as (λ _. ℕ × ℕ) [
      | flag i ↦ (nochar, bit_on s i)
      | escape ↦ (nochar, bit_on s extended)
      | other_key ↦ (translate code s, s)
    ]).1
      < 16
pressed code s (flag i) low h = bit_on-lt s i low h
pressed code s escape low h = absurd low
pressed code s other_key low h = h

-- If the state of the modifier keys has no flag but the four lowest, so that EXTENDED is off, it
-- is so after `kbtoa` of any scan code, the extended escape included.
pub kbtoa-state : (code s : ℕ) → s < 16 → (kbtoa code s).1 < 16
unfolding kbtoa
kbtoa-state code s h = elim (Bool-cases (leb 128 code)) [
  | inl e ↦ rw (not_extended s h, e) (omega (arith, h, key_up-le (code % 128) s))
  | inr e ↦
      rw (not_extended s h, e)
        (pressed code s (modifier code) (modifier-IsLow code (ground arith)) h)
]
