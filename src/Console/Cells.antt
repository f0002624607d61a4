-- ===== src/Console/Cells.antt =====
-- The loops of c/kprintf.c that blank characters, and the copy that moves the text up.
use xeros_kernel.Console.{att, clean, clear_line}
use xeros_kernel.Keyboard.{put_byte, Bytes}
use xeros_kernel.Base.{
  ◌-◌, refl, ap, ltb, zero, ◌∙◌, ◌&&◌, arith, leb, ◌*◌, suc, ◌≤◌, if◌then◌else◌, ◌+◌, ◌⊎◌, ◌≡◌, ◌<◌,
  ℕ,
}

-- A parameter that copies as the C library says: n bytes, the old ones where the areas overlap.
abbrev pub IsBlkcopy : (Bytes → ℕ → ℕ → ℕ → Bytes) → Type 0
IsBlkcopy copy =
    (m : Bytes) (dst src n a : ℕ)
    → copy m dst src n a ≡ (if leb dst a && ltb a (dst + n) then m (src + (a - dst)) else m a)

-- Outside the memory of the screen at `b`.
abbrev pub IsOutside : ℕ → ℕ → Type 0
IsOutside b a = (a < b) ⊎ (b + 4000 ≤ a)

pub clear_line-below : (n cp : ℕ) (m : Bytes) (a : ℕ) → a < cp → clear_line n cp m a ≡ m a
unfolding clear_line
clear_line-below zero cp m a h = refl
clear_line-below (suc n) cp m a h =
    clear_line-below n (cp + 2) (put_byte m cp 32) a (omega (arith, h)) ∙ ground arith

pub clear_line-above : (n cp : ℕ) (m : Bytes) (a : ℕ) → cp + 2 * n ≤ a → clear_line n cp m a ≡ m a
unfolding clear_line
clear_line-above zero cp m a h = refl
clear_line-above (suc n) cp m a h =
    clear_line-above n (cp + 2) (put_byte m cp 32) a (omega (arith, h)) ∙ ground arith

pub clear_line-blank : (n cp : ℕ) (m : Bytes) (i : ℕ) → i < n → clear_line n cp m (cp + 2 * i) ≡ 32
unfolding clear_line
clear_line-blank zero cp m i h = absurd (omega (arith, h))
clear_line-blank (suc n) cp m zero h =
    clear_line-below n (cp + 2) (put_byte m cp 32) (cp + 2 * 0) (omega arith) ∙ ground arith
clear_line-blank (suc n) cp m (suc i) h =
    ap (clear_line n (cp + 2) (put_byte m cp 32)) (omega arith)
    ∙ clear_line-blank n (cp + 2) (put_byte m cp 32) i (omega (arith, h))

pub clean-below : (n cp : ℕ) (m : Bytes) (a : ℕ) → a < cp → clean n cp m a ≡ m a
unfolding clean
clean-below zero cp m a h = refl
clean-below (suc n) cp m a h =
    clean-below n (cp + 2) (put_byte (put_byte m cp 32) (cp + 1) att) a (omega (arith, h))
    ∙ ground arith

pub clean-above : (n cp : ℕ) (m : Bytes) (a : ℕ) → cp + 2 * n ≤ a → clean n cp m a ≡ m a
unfolding clean
clean-above zero cp m a h = refl
clean-above (suc n) cp m a h =
    clean-above n (cp + 2) (put_byte (put_byte m cp 32) (cp + 1) att) a (omega (arith, h))
    ∙ ground arith

pub clean-blank : (n cp : ℕ) (m : Bytes) (i : ℕ) → i < n → clean n cp m (cp + 2 * i) ≡ 32
unfolding clean
clean-blank zero cp m i h = absurd (omega (arith, h))
clean-blank (suc n) cp m zero h =
    clean-below n (cp + 2) (put_byte (put_byte m cp 32) (cp + 1) att) (cp + 2 * 0) (omega arith)
    ∙ ground arith
clean-blank (suc n) cp m (suc i) h =
    ap (clean n (cp + 2) (put_byte (put_byte m cp 32) (cp + 1) att)) (omega arith)
    ∙ clean-blank n (cp + 2) (put_byte (put_byte m cp 32) (cp + 1) att) i (omega (arith, h))
