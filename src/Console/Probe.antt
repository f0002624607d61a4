-- ===== src/Console/Probe.antt =====
-- The probe of c/kprintf.c for a colour display.
use xeros_kernel.Keyboard.{Bytes}
use xeros_kernel.Console.{
  put_short, mono_base, mono_buf, short_at, store_short, probe, cga_buf, Screen, Display,
}
use mathlib.Core.Bool.{and-false}
use xeros_kernel.Base.{
  ==_iff, sym, subst, refl, inr, inl, ◌==◌, Bool-cases, if◌then◌else◌, ◌+◌, ◌∙◌, ◌/◌, ap, ◌%◌,
  arith, ◌<◌, true, ◌≡◌, ℕ,
}

-- A short is what was stored, and storing what a short was changes nothing.
short_lem : (m : Bytes) (a w : ℕ) → short_at (put_short m a w) a ≡ w
short_lem m a w = ground arith

put_short-old :
    (m : Bytes) (a : ℕ)
    → ((b : ℕ) → m b < 256)
    → (b : ℕ) → put_short (put_short m a 42330) a (short_at m a) b ≡ m b
put_short-old m a small b =
    let lo : short_at m a % 256 ≡ m a = omega (arith, small a) in
    let hi : short_at m a / 256 ≡ m (a + 1) = omega (arith, small a) in
    elim (Bool-cases (b == a)) [
      | inl e ↦
          subst (λ b. put_short (put_short m a 42330) a (short_at m a) b ≡ m b)
            (sym ((==_iff b a).0 e)) (ground (arith, lo))
      | inr e ↦ elim (Bool-cases (b == a + 1)) [
        | inl k ↦
            subst (λ b. put_short (put_short m a 42330) a (short_at m a) b ≡ m b)
              (sym ((==_iff b (a + 1)).0 k)) (ground (arith, hi))
        | inr k ↦ ground (arith, e, k)
      ]
    ]

store-colour :
    (d : Display) (m : Bytes) (a w : ℕ)
    → d.has_colour ≡ true
    → store_short d m a w ≡ put_short m a w
unfolding store_short
store-colour d m a w c = rw (c, and-false) refl

module _ (d : Display) (s : Screen) (b : s.base ≡ cga_buf) where
  -- A colour display is found, and its memory is as before.
  pub probe-colour :
      d.has_colour ≡ true
      → ((a : ℕ) → s.memory a < 256)
      → ((probe d s).base ≡ cga_buf) × ((a : ℕ) → (probe d s).memory a ≡ s.memory a)
  unfolding probe
  probe-colour colour small =
      let store : (m : Bytes) (w : ℕ) → store_short d m s.base w ≡ put_short m s.base w =
        λ m w. store-colour d m s.base w colour in
      let was = short_at s.memory s.base in
      let m = store_short d s.memory s.base 42330 in
      let found : short_at m s.base ≡ 42330 =
        ap (λ m. short_at m s.base) (store s.memory 42330) ∙ short_lem s.memory s.base 42330 in
      let e : probe d s ≡ (record s { memory = store_short d m s.base was }) =
        ap
          (λ w. if w == 42330 then record s { memory = store_short d m s.base was } else record s {
            base = mono_buf;
            addr_6845 = mono_base;
            memory = store_short d m mono_buf was;
          })
          found in
      (
        ap (λ t. t.base) e ∙ b,
        λ a.
            ap (λ t. t.memory a) e
            ∙ (ap (λ f. f a) (store m was)
                ∙ ap (λ m. put_short m s.base was a) (store s.memory 42330)
                ∙ put_short-old s.memory s.base small a),
      )
