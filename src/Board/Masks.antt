-- ===== src/Board/Masks.antt =====
-- The masks of the interrupt controllers, in c/i386.c: `enable_irq` changes one bit of one mask.
use xeros_kernel.Board.{outb, Ports, enable_irq}
use native.Mathlib.Nat.{pow-suc, div-div-eq-div-mul}
use xeros_kernel.Base.{
  ◌-◌, ltb→lt, ◌∷◌, ltb, inr, subst, inl, Bool-cases, ◌≤◌, ◌*◌, refl, ==_ne, sym, ◌∙◌, ap, zero,
  false, ◌==◌, ◌%◌, arith, ◌^◌, true, ◌<◌, ◌≡◌, ◌/◌, if◌then◌else◌, suc, Bool, bit_off, bit_on,
  bit_set, ℕ,
}

-- A word by its lowest bit and the rest.
bit_set-suc : (w i : ℕ) → bit_set w (suc i) ≡ bit_set (w / 2) i
bit_set-suc w i =
    let twice : 2 ^ i * 2 ≡ 2 * 2 ^ i = omega arith in
    let e : w / 2 ^ suc i ≡ w / 2 / 2 ^ i =
      ap (λ n. w / n) (pow-suc 2 i ∙ twice) ∙ sym (div-div-eq-div-mul w 2 (2 ^ i)) in
    ap (λ n. n % 2 == 1) e

set_le : (w i : ℕ) → bit_set w i ≡ true → 2 ^ i ≤ w
set_le w zero e = ground (arith, e)
set_le w (suc i) e = rw pow-suc (omega (arith, set_le (w / 2) i (sym (bit_set-suc w i) ∙ e)))

bit_on-half : (w i : ℕ) → bit_on w (suc i) / 2 ≡ bit_on (w / 2) i
bit_on-half w i = rw (bit_set-suc w i, pow-suc) (ground arith)

bit_on-low : (w i : ℕ) → bit_on w (suc i) % 2 ≡ w % 2
bit_on-low w i = rw (bit_set-suc w i, pow-suc) (ground arith)

bit_off-half : (w i : ℕ) → bit_off w (suc i) / 2 ≡ bit_off (w / 2) i
bit_off-half w i = rw (bit_set-suc w i, pow-suc) (ground arith)

bit_off-low : (w i : ℕ) → bit_off w (suc i) % 2 ≡ w % 2
bit_off-low w i = elim (Bool-cases (bit_set (w / 2) i)) [
  | inl e ↦ let le = set_le (w / 2) i e in rw (bit_set-suc w i, e, pow-suc) (omega (arith, le))
  | inr e ↦ rw (bit_set-suc w i, e) refl
]

-- Set or cleared, as `enable_irq` does with a mask.
abbrev bit_to : Bool → ℕ → ℕ → ℕ
bit_to on w i = if on then bit_on w i else bit_off w i

bit_to-half : (on : Bool) (w i : ℕ) → bit_to on w (suc i) / 2 ≡ bit_to on (w / 2) i
bit_to-half true w i = bit_on-half w i
bit_to-half false w i = bit_off-half w i

bit_to-low : (on : Bool) (w i : ℕ) → bit_to on w (suc i) % 2 ≡ w % 2
bit_to-low true w i = bit_on-low w i
bit_to-low false w i = bit_off-low w i

bit_to-rest : (on : Bool) (w : ℕ) → bit_to on w 0 / 2 ≡ w / 2
bit_to-rest true w = ground arith
bit_to-rest false w = ground arith

bit_to-first : (on : Bool) (w : ℕ) → bit_set (bit_to on w 0) 0 ≡ on
bit_to-first true w = ground arith
bit_to-first false w = ground arith

same_suc : (j i : ℕ) → (j == i) ≡ (suc j == suc i)
same_suc j i = ground arith

unit : (w : ℕ) → w / 2 ^ 0 % 2 ≡ w % 2
unit w = omega arith

-- A bit has the value it was given, and the others stay.
bit_set-to :
    (on : Bool) (i j w : ℕ) → bit_set (bit_to on w i) j ≡ (if j == i then on else bit_set w j)
bit_set-to on zero zero w = bit_to-first on w
bit_set-to on zero (suc j) w =
    bit_set-suc (bit_to on w 0) j
    ∙ ap (λ v. bit_set v j) (bit_to-rest on w)
    ∙ sym (bit_set-suc w j)
    ∙ rw (==_ne (suc j) 0 (λ z. omega (arith, z))) refl
bit_set-to on (suc i) zero w =
    ap (λ v. v == 1) (unit (bit_to on w (suc i)) ∙ bit_to-low on w i ∙ sym (unit w))
    ∙ rw (==_ne 0 (suc i) (λ z. omega (arith, z))) refl
bit_set-to on (suc i) (suc j) w =
    bit_set-suc (bit_to on w (suc i)) j
    ∙ ap (λ v. bit_set v j) (bit_to-half on w i)
    ∙ bit_set-to on i j (w / 2)
    ∙ ap (λ b. if b then on else bit_set (w / 2) j) (same_suc j i)
    ∙ ap (λ v. if suc j == suc i then on else v) (sym (bit_set-suc w j))

bit_to-lt : (on : Bool) (n i w : ℕ) → i < n → w < 2 ^ n → bit_to on w i < 2 ^ n
bit_to-lt on zero i w h l = absurd (omega (arith, h))
bit_to-lt on (suc n) zero w h l =
    let rest = bit_to-rest on w in
    let b : w < 2 ^ n * 2 = subst (λ m. w < m) (pow-suc 2 n) l in
    rw pow-suc (omega (arith, rest, b))
bit_to-lt on (suc n) (suc i) w h l =
    let b : w < 2 ^ n * 2 = subst (λ m. w < m) (pow-suc 2 n) l in
    let half = bit_to-lt on n i (w / 2) (omega (arith, h)) (omega (arith, b)) in
    subst (λ m. bit_to on w (suc i) < m) (sym (pow-suc 2 n))
      (omega (arith, half, bit_to-half on w i))

-- The port of the controller that an interrupt request belongs to.
abbrev pub port_of : ℕ → ℕ
port_of irq = if ltb irq 8 then 33 else 161

enable_irq-written :
    (inb : Ports → ℕ → ℕ) (irq : ℕ) (disable : Bool) (ps : Ports)
    → irq < 16
    → enable_irq inb irq disable ps
      ≡ outb (port_of irq) (bit_to disable (inb ps (port_of irq)) (irq % 8)) ps
unfolding enable_irq
enable_irq-written inb irq disable ps h = elim (Bool-cases (ltb irq 8)) [
  | inl e ↦ let low : irq % 8 ≡ irq = omega (arith, ltb→lt irq 8 e) in rw (e, low) refl
  | inr e ↦ let high : irq % 8 ≡ irq - 8 = ground (arith, e, h) in rw (e, high) refl
]

-- For an interrupt request below 16 and ports that answer bytes, `enable_irq` makes one write, to
-- the mask of the request's controller: the bit of the request is set if it is disabled and
-- cleared if not, and every other bit is what the port answers.
pub enable_irq-mask :
    (inb : Ports → ℕ → ℕ) (irq : ℕ) (disable : Bool) (ps : Ports)
    → irq < 16
    → ((qs : Ports) (p : ℕ) → inb qs p < 256)
    → (v : ℕ) × (enable_irq inb irq disable ps ≡ (port_of irq, v) ∷ ps)
      × ((j : ℕ)
          → bit_set v j ≡ (if j == irq % 8 then disable else bit_set (inb ps (port_of irq)) j))
enable_irq-mask inb irq disable ps h byte =
    let old = inb ps (port_of irq) in
    let v = bit_to disable old (irq % 8) in
    let l : v < 256 = bit_to-lt disable 8 (irq % 8) old (omega arith) (byte ps (port_of irq)) in
    let fits : v % 256 ≡ v = omega (arith, l) in
    (
      v,
      enable_irq-written inb irq disable ps h ∙ ap (λ w. (port_of irq, w) ∷ ps) fits,
      λ j. bit_set-to disable (irq % 8) j old,
    )
