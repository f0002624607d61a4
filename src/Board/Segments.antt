-- ===== src/Board/Segments.antt =====
-- The segments of c/i386.c: the table of descriptors and `setsegs`.
use xeros_kernel.Base.{
  refl, arith, ◌≡◌, sub32, ◌≤◌, ◌/◌, ◌||◌, ◌-◌, ◌^◌, ◌==◌, ◌<◌, ◌+◌, add32, ◌%◌, if◌then◌else◌, ◌*◌,
  ℕ,
}

-- A segment descriptor (h/i386.h).
pub record Sd : Type 0 where
  pub sd_lolimit : ℕ
  pub sd_lobase : ℕ
  pub sd_midbase : ℕ
  pub sd_perm : ℕ
  pub sd_iscode : ℕ
  pub sd_isapp : ℕ
  pub sd_dpl : ℕ
  pub sd_present : ℕ
  pub sd_hilimit : ℕ
  pub sd_avl : ℕ
  pub sd_mbz : ℕ
  pub sd_32b : ℕ
  pub sd_gran : ℕ
  pub sd_hibase : ℕ

abbrev pub nbpg : ℕ
nbpg = 4096

abbrev pub kernel_stack : ℕ
kernel_stack = 4 * 4096

-- A descriptor of `gdt_copy` with the two fields in which the entries differ.
abbrev pub segment : ℕ → ℕ → Sd
segment perm iscode = record {
  sd_lolimit = 65535;
  sd_lobase = 0;
  sd_midbase = 0;
  sd_perm = perm;
  sd_iscode = iscode;
  sd_isapp = 1;
  sd_dpl = 0;
  sd_present = 1;
  sd_hilimit = 15;
  sd_avl = 0;
  sd_mbz = 0;
  sd_32b = 1;
  sd_gran = 1;
  sd_hibase = 0;
}

abbrev pub null_segment : Sd
null_segment = record {
  sd_lolimit = 0;
  sd_lobase = 0;
  sd_midbase = 0;
  sd_perm = 0;
  sd_iscode = 0;
  sd_isapp = 0;
  sd_dpl = 0;
  sd_present = 0;
  sd_hilimit = 0;
  sd_avl = 0;
  sd_mbz = 0;
  sd_32b = 0;
  sd_gran = 0;
  sd_hibase = 0;
}

-- `gdt_copy`, in which no more than five entries are written out.
abbrev pub gdt_copy : ℕ → Sd
gdt_copy i =
    if (i == 1) || (i == 4)
    then segment 6 1
    else if (i == 2) || (i == 3)
    then segment 2 0
    else null_segment

-- `sizmem`.
abbrev pub sizmem : ℕ
sizmem = 1024

-- The two stores of a limit in pages: 16 bits and 4.
abbrev pub with_limit : ℕ → Sd → Sd
with_limit n d = record d { sd_lolimit = n % 2 ^ 16; sd_hilimit = n / 2 ^ 16 % 2 ^ 4 }

-- The globals that `setsegs` sets.
pub record Setup : Type 0 where
  pub gdt : ℕ → Sd
  pub initsp : ℕ
  pub freemem : ℕ
  pub maxaddr : ℕ

-- `setsegs`, from the addresses `etext` and `end` of the linker; `blkcopy` copies the whole table.
unfoldable pub setsegs : ℕ → ℕ → Setup
setsegs etext end =
    let np = add32 etext (nbpg - 1) / nbpg in
    record {
      gdt = λ i.
          if i == 1
          then with_limit np (gdt_copy 1)
          else if (i == 2) || ((i == 3) || (i == 4))
          then with_limit sizmem (gdt_copy i)
          else gdt_copy i;
      initsp = sub32 (add32 end kernel_stack) 4;
      freemem = add32 end kernel_stack;
      maxaddr = sizmem * nbpg - 1;
    }

-- The limit of a descriptor, in pages.
abbrev pub limit : Sd → ℕ
limit d = d.sd_lolimit + d.sd_hilimit * 2 ^ 16

-- The code segment ends with the page in which the code ends, the others with the memory.
pub setsegs-limit :
    (etext end : ℕ)
    → etext < 2 ^ 32 - 4096
    → let s = setsegs etext end in
      (limit (s.gdt 1) * nbpg < etext + nbpg)
      × (etext ≤ limit (s.gdt 1) * nbpg)
      × (limit (s.gdt 2) * nbpg ≡ s.maxaddr + 1)
      × (limit (s.gdt 3) * nbpg ≡ s.maxaddr + 1)
      × (limit (s.gdt 4) * nbpg ≡ s.maxaddr + 1)
unfolding setsegs
setsegs-limit etext end h = (omega (arith, h), omega (arith, h), refl, refl, refl)
