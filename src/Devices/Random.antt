-- ===== src/Devices/Random.antt =====
-- `rand_read` of c/zerorand.c writes inside its buffer.
use xeros_kernel.Devices.{byte_of, Devices, Rand, put_int, rand_read, rand_bytes, rand_ints}
use xeros_kernel.Keyboard.{put_byte, Bytes}
use xeros_kernel.Base.{
  inr, ◌/◌, inl, ◌%◌, ltb, Bool-cases, refl, zero, ◌∙◌, suc, ◌*◌, arith, ◌≡◌, ◌≤◌, ◌+◌, ◌⊎◌, ◌<◌, ℕ,
}

-- The places that are not among the n from a on.
abbrev Outside : ℕ → ℕ → ℕ → Type 0
Outside a n b = (b < a) ⊎ (a + n ≤ b)

put_int-Outside : (a r b : ℕ) (m : Bytes) → Outside a 4 b → put_int a r m b ≡ m b
put_int-Outside a r b m h = ground arith

rand_ints-Outside :
    (lib : Rand) (k a b : ℕ) (d : Devices)
    → Outside a (4 * k) b
    → (rand_ints lib k a d).bytes b ≡ d.bytes b
unfolding rand_ints
rand_ints-Outside lib zero a b d h = refl
rand_ints-Outside lib (suc k) a b d h =
    rand_ints-Outside lib k (a + 4) b
      (record d { seed = (lib.rand d.seed).1; bytes = put_int a (lib.rand d.seed).0 d.bytes })
      (ground (arith, h))
    ∙ put_int-Outside a (lib.rand d.seed).0 b d.bytes (ground (arith, h))

rand_bytes-Outside :
    (n i a r b : ℕ) (m : Bytes) → Outside (a + i) n b → rand_bytes n i a r m b ≡ m b
unfolding rand_bytes
rand_bytes-Outside zero i a r b m h = refl
rand_bytes-Outside (suc n) i a r b m h =
    rand_bytes-Outside n (suc i) a r b (put_byte m (a + i) (byte_of r i)) (ground (arith, h))
    ∙ ground (arith, h)

-- `rand_read` of n bytes at a returns n and changes no byte below a and none from a + n on.
rand_read-outside :
    (lib : Rand) (a n b : ℕ) (d : Devices)
    → (b < a) ⊎ (a + n ≤ b)
    → ((rand_read lib a n d).0 ≡ n) × ((rand_read lib a n d).1.bytes b ≡ d.bytes b)
unfolding rand_read
rand_read-outside lib a n b d h = elim (Bool-cases (ltb 0 (n % 4))) [
  | inl p ↦ rw p (
    refl,
    rand_bytes-Outside (n % 4) 0 (a + 4 * (n / 4)) (lib.rand (rand_ints lib (n / 4) a d).seed).0 b
          (rand_ints lib (n / 4) a d).bytes (ground (arith, h))
        ∙ rand_ints-Outside lib (n / 4) a b d (ground (arith, h)),
  )
  | inr p ↦ rw p (refl, rand_ints-Outside lib (n / 4) a b d (ground (arith, h)))
]
