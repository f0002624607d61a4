-- ===== src/Priority.antt =====
-- The field `priority` indexes the arrays of every list: what the kernel does to it.
pub mod Lists
pub mod Sleepers
pub mod Interrupts
pub mod Devices
pub mod Bound
pub mod Turns
pub mod Serve
pub mod Reach
use xeros_kernel.Process.{Kernel, Ptr, Pcbs}
use xeros_kernel.Base.{false, ◌∙◌, true, none, if◌then◌else◌, some, ◌≡◌, Bool, Option, ℕ}

-- The same priorities in u as in t.
abbrev pub SamePriorities : Pcbs → Pcbs → Type 0
SamePriorities t u = (p : Ptr) → (u p).priority ≡ (t p).priority

-- The result, if there is one, has the priorities of t.
abbrev pub KeepsPriorities : Pcbs → Option Kernel → Type 0
KeepsPriorities t none = Unit {0}
KeepsPriorities t (some k) = SamePriorities t k.pcbs

pub KeepsPriorities-if :
    (t : Pcbs) (b : Bool) (o p : Option Kernel)
    → KeepsPriorities t o
    → KeepsPriorities t p
    → KeepsPriorities t (if b then o else p)
KeepsPriorities-if t true o p k l = k
KeepsPriorities-if t false o p k l = l

pub KeepsPriorities-after :
    (t u : Pcbs) (o : Option Kernel)
    → SamePriorities t u
    → KeepsPriorities u o
    → KeepsPriorities t o
KeepsPriorities-after t u none s k = tt
KeepsPriorities-after t u (some k') s k = λ p. k p ∙ s p
