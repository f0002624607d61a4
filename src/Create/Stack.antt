-- ===== src/Create/Stack.antt =====
-- The words that `create` of c/create.c writes lie in the stack that it gets.
use xeros_kernel.Process.{Kernel, Ptr}
use xeros_kernel.System.{System, Env}
use xeros_kernel.ReadyQueue.{make_ready}
use xeros_kernel.Create.{fill_slot, start_process, first_frame}
use xeros_kernel.Memory.{mem_size}
use xeros_kernel.Base.{
  ◌∙◌, ap, ==_ne, refl, inr, ◌-◌, inl, ◌==◌, add32, sub32, Bool-cases, ◌≢◌, ◌≡◌, arith, ◌≤◌, ◌+◌,
  ◌^◌, ◌⊎◌, ◌<◌, ℕ,
}

-- A word outside the n bytes at a: it starts in front of them, or ends behind them.
abbrev pub IsBeyond : ℕ → ℕ → ℕ → Type 0
IsBeyond a n b = (b < a) ⊎ (a + n < b + 4)

pub mem_size-enough : (stack : ℕ) → stack < 2 ^ 31 → stack ≤ mem_size stack
unfolding mem_size
mem_size-enough stack h = ground (arith, h)

first_frame-outside :
    (e : Env) (a func : ℕ) (w : ℕ → ℕ) (b : ℕ)
    → a + 48 < 2 ^ 32
    → IsBeyond a 48 b
    → first_frame e a func w b ≡ w b
unfolding first_frame
first_frame-outside e a func w b range out =
    rw
      (
        ==_ne b (add32 a 44) (apart 44 (omega arith)),
        ==_ne b (add32 a 40) (apart 40 (omega arith)),
        ==_ne b (add32 a 36) (apart 36 (omega arith)),
        ==_ne b (add32 a 32) (apart 32 (omega arith)),
        ==_ne b (add32 a 8) (apart 8 (omega arith)),
        ==_ne b (add32 a 12) (apart 12 (omega arith)),
      )
      refl
  where
    apart : (i : ℕ) → i ≤ 44 → b ≢ add32 a i
    apart i l z = elim out [
      | inl o ↦ omega (arith, range, l, z, o)
      | inr o ↦ omega (arith, range, l, z, o)
    ]

make_ready-words : (p : Ptr) (k : Kernel) → (make_ready p k).words ≡ k.words
unfolding make_ready
make_ready-words p k = elim (Bool-cases ((k.pcbs p).pid == 0)) [
  | inl b ↦ rw b refl
  | inr b ↦ rw b refl
]

-- The frame stands at the end of the stack, of at least 48 bytes.
pub start_process-words :
    (e : Env) (p addr func stack b : ℕ) (s : System)
    → 48 ≤ stack
    → stack < 2 ^ 31
    → addr + mem_size stack < 2 ^ 32
    → IsBeyond addr (mem_size stack) b
    → (start_process e p addr func stack s).1.kernel.words b ≡ s.kernel.words b
unfolding start_process
start_process-words e p addr func stack b s low high range out =
    let enough = mem_size-enough stack high in
    let frame = sub32 (add32 addr stack) 48 in
    let at : frame ≡ addr + stack - 48 = omega (arith, low, range, enough) in
    let beyond : IsBeyond frame 48 b = elim out [
      | inl o ↦ inl (omega (arith, o, at, low))
      | inr o ↦ inr (omega (arith, o, at, low, enough))
    ] in
    ap (λ w. w b) (make_ready-words p (fill_slot e p addr func stack s.kernel))
    ∙ first_frame-outside e frame func s.kernel.words b (omega (arith, at, range, enough, low))
        beyond
