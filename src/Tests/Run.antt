-- ===== src/Tests/Run.antt =====
-- A test of c/test.c that runs on the kernel: each call is a turn of the switch of c/disp.c, after which
-- the same process goes on, or another one runs.
use xeros_kernel.Signals.{put_word}
use xeros_kernel.Keyboard.{put_byte, Bytes}
use xeros_kernel.Process.{Ptr}
use Prim.Native.String.{String}
use xeros_kernel.Tests.{done, say, warn, fill, ask, ioctl, Test, Arg}
use xeros_kernel.Dispatch.Serve.{serve}
use xeros_kernel.Dispatch.Request.{sys_ioctl}
use xeros_kernel.System.{Env, System, with_kernel}
use xeros_kernel.Base.{◌==◌, if◌then◌else◌, some, none, ◌+◌, List, ℕ, [], ◌∷◌}

abbrev pub Line : Type 0
Line = String × List Arg

-- How a run ends: the function returns, or the kernel switches to a process. A kernel without fuel
-- is `lost`.
pub data Outcome (A : Type 0) : Type 0 where
  returned : A → System → Outcome A
  switched : Ptr → System → Outcome A
  lost : Outcome A

-- The bytes that the program stores, and the arguments of sysioctl, which lie at `va`.
abbrev pub put_bytes : ℕ → List ℕ → Bytes → Bytes
put_bytes a [] m = m
put_bytes a (b ∷ bs) m = put_bytes (a + 1) bs (put_byte m a b)

abbrev pub put_words : ℕ → List ℕ → (ℕ → ℕ) → ℕ → ℕ
put_words a [] w = w
put_words a (b ∷ bs) w = put_words (a + 4) bs (put_word w a b)

abbrev pub with_bytes : ℕ → List ℕ → System → System
with_bytes a bs s = record s {
  devices = record s.devices { bytes = put_bytes a bs s.devices.bytes };
}

abbrev pub with_words : ℕ → List ℕ → System → System
with_words a bs s = with_kernel s (record s.kernel { words = put_words a bs s.kernel.words })

unfoldable pub run : {A : Type 0} → Env → ℕ → ℕ → Ptr → System → Test A → List Line × Outcome A
run e f va p s (done a) = ([], returned a s)
run e f va p s (say text args k) =
    let (lines, out) = run e f va p s k in ((text, args) ∷ lines, out)
run e f va p s (warn text k) = run e f va p s k
run e f va p s (fill a bs k) = run e f va p (with_bytes a bs s) k
run e f va p s (ask r k) = elim (serve e f none p s r) [
  | none ↦ ([], lost)
  | some (q, s') ↦
      let rest = run e f va p s' (k (s'.kernel.pcbs p).rc) in
      if q == p then rest else ([], switched q s')
]
run e f va p s (ioctl fd command args k) =
    elim (serve e f none p (with_words va args s) (sys_ioctl fd command va)) [
      | none ↦ ([], lost)
      | some (q, s') ↦
          let rest = run e f va p s' (k (s'.kernel.pcbs p).rc) in
          if q == p then rest else ([], switched q s')
    ]
