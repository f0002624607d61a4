-- ===== src/Examples/Allocating.antt =====
-- A heap with free blocks of 4000, 20000 and 4096 bytes, and one that ends in a block of 5008.
use xeros_kernel.Memory.Keep.{kfree-keeps}
use xeros_kernel.Memory.Twice.{kfree-twice}
use xeros_kernel.Memory.Free.{kmalloc-kfree}
use xeros_kernel.Memory.Exact.{kmalloc-loses}
use xeros_kernel.Memory.Allocate.{kmalloc-cuts, IsHandedOut}
use xeros_kernel.Memory.Apart.{IsFree}
use xeros_kernel.Memory.{kfree, is_outside, kmalloc, mem_size, Layout, Heap}
use xeros_kernel.Base.{false, ◌-◌, true, ◌+◌, some, ◌≡◌, ◌==◌, refl, arith, if◌then◌else◌, [], ◌∷◌}

abbrev pub heap : Heap
heap = record {
  headers = λ a.
      if a == 4096
      then record { size = 4000; prev = 0; next = 16384; sanity_check = 0 }
      else if a == 16384
      then record { size = 20000; prev = 4096; next = 65536; sanity_check = 0 }
      else record { size = 4096; prev = 16384; next = 0; sanity_check = 0 };
  mem_list = 4096;
}

pub heap-IsFree : IsFree heap ((4096, 4000) ∷ (16384, 20000) ∷ (65536, 4096) ∷ [])
heap-IsFree = record {
  last = 65536;
  list = (
    refl,
    omega arith,
    refl,
    refl,
    (refl, omega arith, refl, refl, (refl, omega arith, refl, refl, (refl, refl))),
  );
  apart = (omega arith, (omega arith, (omega arith, omega arith)));
}

abbrev layout : Layout
layout = record { freemem = 4096; maxaddr = 4194304 }

kmalloc-cuts_example :
    (h' : Heap) × (kmalloc 2 5000 heap ≡ some (16400, h'))
    × IsHandedOut h' 16384 (mem_size 5000)
    × IsFree h' (
        (4096, 4000)
        ∷ (16384 + mem_size 5000 + 16, 20000 - mem_size 5000 - 16)
        ∷ (65536, 4096)
        ∷ [])
unfolding mem_size
kmalloc-cuts_example =
    kmalloc-cuts 2 5000 heap ((4096, 4000) ∷ []) 16384 20000 ((65536, 4096) ∷ []) heap-IsFree
      (omega arith) (omega arith) (omega arith, tt)

kmalloc-kfree_example :
    (h' : Heap) × (h'' : Heap) × (kmalloc 3 5000 heap ≡ some (16400, h'))
    × (kfree 3 layout 16400 h' ≡ some (true, h''))
    × IsFree h'' ((4096, 4000) ∷ (16384, 20000) ∷ (65536, 4096) ∷ [])
unfolding mem_size is_outside
kmalloc-kfree_example =
    kmalloc-kfree 3 5000 layout heap ((4096, 4000) ∷ []) 16384 20000 ((65536, 4096) ∷ [])
      heap-IsFree (omega arith) (omega arith, tt) (omega arith) refl

abbrev full : Heap
full = record {
  headers = λ a.
      if a == 4096
      then record { size = 4000; prev = 0; next = 16384; sanity_check = 0 }
      else record { size = 5008; prev = 4096; next = 0; sanity_check = 0 };
  mem_list = 4096;
}

full-IsFree : IsFree full ((4096, 4000) ∷ (16384, mem_size 5000) ∷ [])
unfolding mem_size
full-IsFree = record {
  last = 16384;
  list = (refl, omega arith, refl, refl, (refl, omega arith, refl, refl, (refl, refl)));
  apart = (omega arith, (omega arith, omega arith));
}

kmalloc-loses_example : (h' : Heap) × (kmalloc 2 5000 full ≡ some (16400, h')) × (h'.mem_list ≡ 0)
unfolding mem_size
kmalloc-loses_example =
    kmalloc-loses 2 5000 full ((4096, 4000) ∷ []) 16384 full-IsFree (omega arith) (omega arith, tt)

-- The heap after a block was handed out and freed again.
freed_lem :
    (h' : Heap) × (h'' : Heap) × (kmalloc 3 4096 heap ≡ some (16400, h'))
    × (kfree 3 layout 16400 h' ≡ some (true, h''))
    × IsFree h'' ((4096, 4000) ∷ (16384, 20000) ∷ (65536, 4096) ∷ [])
unfolding mem_size is_outside
freed_lem =
    kmalloc-kfree 3 4096 layout heap ((4096, 4000) ∷ []) 16384 20000 ((65536, 4096) ∷ [])
      heap-IsFree (omega arith) (omega arith, tt) (omega arith) refl

kfree-twice_example : kfree 3 layout 16400 freed_lem.1 ≡ some (false, freed_lem.1)
kfree-twice_example =
    kfree-twice 3 3 16400 layout freed_lem.0 freed_lem.1 (omega arith) (omega arith) freed_lem.3

-- The heap with the block at 16384 handed out.
abbrev used : Heap
used = record {
  headers = λ a.
      if a == 4096
      then record { size = 4000; prev = 0; next = 65536; sanity_check = 0 }
      else if a == 16384
      then record { size = 20000; prev = 0; next = 0; sanity_check = 16384 }
      else record { size = 4096; prev = 4096; next = 0; sanity_check = 0 };
  mem_list = 4096;
}

used-IsFree : IsFree used ((4096, 4000) ∷ (65536, 4096) ∷ [])
used-IsFree = record {
  last = 65536;
  list = (refl, omega arith, refl, refl, (refl, omega arith, refl, refl, (refl, refl)));
  apart = (omega arith, (omega arith, omega arith));
}

kfree-keeps_example :
    (h' : Heap) × (kfree 3 layout 16400 used ≡ some (true, h'))
    × IsFree h' ((4096, 4000) ∷ (16384, 20000) ∷ (65536, 4096) ∷ [])
unfolding is_outside
kfree-keeps_example =
    kfree-keeps 3 16384 20000 layout used ((4096, 4000) ∷ []) 65536 4096 [] used-IsFree
      (record { size = refl; check = refl })
      (omega arith, (omega arith, (omega arith, omega arith))) refl (omega arith)
