-- ===== src/Board/Vectors.antt =====
-- Where the vectors of the interrupt table lead after `initevec` (c/evec.c) and `contextinit` (c/ctsw.c).
use xeros_kernel.Board.{
  sys_call, timer_int, zero_idt, nid, kbd_int, initevec, contextinit, Ports, Entries, Idts,
  set_evecs, set_evec, Idt,
}
use xeros_kernel.Base.{
  ltb→lt, none, some, ltb, Option, sym, subst, zero, ==_iff, ◌∙◌, ◌==◌, inr, if◌then◌else◌,
  Bool-cases, inl, suc, ◌⊎◌, arith, ◌≤◌, ==_self, refl, ==_ne, ◌^◌, ◌≢◌, ◌<◌, ◌*◌, ◌≡◌, ◌+◌, ℕ,
}

-- The address that a gate leads to.
abbrev pub handler_of : Idt → ℕ
handler_of g = g.igd_loffset + g.igd_hoffset * 2 ^ 16

-- A gate to `h` that is present.
abbrev pub LeadsTo : ℕ → Idt → Type 0
LeadsTo h g = (handler_of g ≡ h) × (g.igd_present ≡ 1) × (g.igd_segsel ≡ 8)

pub set_evec-LeadsTo :
    (i handler : ℕ) (idt : Idts) → handler < 2 ^ 32 → LeadsTo handler (set_evec i handler idt i)
unfolding set_evec
set_evec-LeadsTo i handler idt h = rw (==_self i) (omega (arith, h), refl, refl)

pub set_evec-others : (i j handler : ℕ) (idt : Idts) → j ≢ i → set_evec i handler idt j ≡ idt j
unfolding set_evec
set_evec-others i j handler idt ne = rw (==_ne j i ne) refl

-- The loop sets the n vectors from i on, and those alone.
pub set_evecs-others :
    (n i : ℕ) (defevec : ℕ → ℕ) (idt : Idts) (j : ℕ)
    → (j < i) ⊎ (i + n ≤ j)
    → set_evecs n i defevec idt j ≡ idt j
unfolding set_evecs
set_evecs-others zero i defevec idt j o = refl
set_evecs-others (suc n) i defevec idt j o =
    let o' : (j < i + 1) ⊎ (i + 1 + n ≤ j) = elim o [
      | inl l ↦ inl (omega (arith, l))
      | inr l ↦ inr (omega (arith, l))
    ] in
    set_evecs-others n (i + 1) defevec (set_evec i (defevec i) idt) j o'
    ∙ set_evec-others i j (defevec i) idt
        (λ e. elim o [ inl l ↦ omega (arith, l, e) | inr l ↦ omega (arith, l, e) ])

pub set_evecs-LeadsTo :
    (n i : ℕ) (defevec : ℕ → ℕ) (idt : Idts) (j : ℕ)
    → ((k : ℕ) → defevec k < 2 ^ 32)
    → i ≤ j
    → j < i + n
    → LeadsTo (defevec j) (set_evecs n i defevec idt j)
unfolding set_evecs
set_evecs-LeadsTo zero i defevec idt j small l r = absurd (omega (arith, l, r))
set_evecs-LeadsTo (suc n) i defevec idt j small l r =
    let t = set_evec i (defevec i) idt in
    elim (Bool-cases (j == i)) [
      | inl e ↦
          let j_i = (==_iff j i).0 e in
          subst (λ g. LeadsTo (defevec j) g)
            (sym (set_evecs-others n (i + 1) defevec t j (inl (omega (arith, j_i)))))
            (subst (λ k. LeadsTo (defevec k) (t k)) (sym j_i)
              (set_evec-LeadsTo i (defevec i) idt (small i)))
      | inr e ↦
          set_evecs-LeadsTo n (i + 1) defevec t j small (ground (arith, l, e)) (omega (arith, r))
    ]

-- Where a vector leads: to the entries of c/ctsw.c for the keyboard, the timer and the system call, to
-- that of `defevec` for the others below 48, and nowhere from there on.
abbrev pub entry_of : (ℕ → ℕ) → Entries → ℕ → Option ℕ
entry_of defevec e i =
    if i == kbd_int
    then some e.kbd_entry_point
    else if i == timer_int
    then some e.timer_entry_point
    else if i == sys_call
    then some e.isr_entry_point
    else if ltb i 48
    then some (defevec i)
    else none

-- A gate that leads there, or one that is not present.
abbrev pub IsGate : Option ℕ → Idt → Type 0
IsGate none g = g ≡ zero_idt
IsGate (some h) g = LeadsTo h g

set_evec-IsGate :
    (x h i : ℕ) (o : Option ℕ) (idt : Idts)
    → h < 2 ^ 32
    → IsGate o (idt i)
    → IsGate (if i == x then some h else o) (set_evec x h idt i)
set_evec-IsGate x h i o idt small rest = elim (Bool-cases (i == x)) [
  | inl e ↦
      subst (λ b. IsGate (if b then some h else o) (set_evec x h idt i)) (sym e)
        (subst (λ k. LeadsTo h (set_evec x h idt k)) (sym ((==_iff i x).0 e))
          (set_evec-LeadsTo x h idt small))
  | inr e ↦
      subst (λ b. IsGate (if b then some h else o) (set_evec x h idt i)) (sym e)
        (subst (IsGate o) (sym (set_evec-others x i h idt (λ k. ground (arith, k, e)))) rest)
]

set_evecs-IsGate :
    (defevec : ℕ → ℕ) (i : ℕ)
    → ((k : ℕ) → defevec k < 2 ^ 32)
    → IsGate
        (if ltb i 48 then some (defevec i) else none)
        (set_evecs nid 0 defevec (λ i. zero_idt) i)
set_evecs-IsGate defevec i small =
    let t = set_evecs nid 0 defevec (λ i. zero_idt) i in
    elim (Bool-cases (ltb i 48)) [
      | inl e ↦
          subst (λ b. IsGate (if b then some (defevec i) else none) t) (sym e)
            (set_evecs-LeadsTo nid 0 defevec (λ i. zero_idt) i small (omega arith)
              (omega (arith, ltb→lt i 48 e)))
      | inr e ↦
          let out : (i < 0) ⊎ (0 + nid ≤ i) = inr (ground (arith, e)) in
          subst (λ b. IsGate (if b then some (defevec i) else none) t) (sym e)
            (set_evecs-others nid 0 defevec (λ i. zero_idt) i out)
    ]

-- If the handlers and the entry points are 32-bit addresses, then after `initevec` and
-- `contextinit` the vectors below 48 and the vector 49 are present in the kernel's code segment
-- and the two halves of the address make up their entries: those of c/ctsw.c for the system call
-- (49), the timer (32) and the keyboard (33), that of `defevec` for the others. Every other vector
-- is as `memset` leaves it.
pub contextinit-IsGate :
    (inb : Ports → ℕ → ℕ) (defevec : ℕ → ℕ) (e : Entries) (ps : Ports)
    → ((k : ℕ) → defevec k < 2 ^ 32)
    → e.kbd_entry_point < 2 ^ 32
    → e.timer_entry_point < 2 ^ 32
    → e.isr_entry_point < 2 ^ 32
    → (i : ℕ) → IsGate (entry_of defevec e i) ((contextinit inb e (initevec defevec ps)).0 i)
unfolding contextinit initevec
contextinit-IsGate inb defevec e ps small kbd timer isr i =
    let t0 = set_evecs nid 0 defevec (λ i. zero_idt) in
    let t1 = set_evec sys_call e.isr_entry_point t0 in
    let t2 = set_evec timer_int e.timer_entry_point t1 in
    let o0 = if ltb i 48 then some (defevec i) else none in
    let o1 = if i == sys_call then some e.isr_entry_point else o0 in
    let o2 = if i == timer_int then some e.timer_entry_point else o1 in
    set_evec-IsGate kbd_int e.kbd_entry_point i o2 t2 kbd (
      set_evec-IsGate timer_int e.timer_entry_point i o1 t1 timer
        (set_evec-IsGate sys_call e.isr_entry_point i o0 t0 isr (set_evecs-IsGate defevec i small)))
