-- ===== src/Boot/Segments.antt =====
-- The descriptors of the LDT and the TSS that `entry` of student-distrib/kernel.c builds, as in
-- student-distrib/x86_desc.h.
use linux_base_operating_sys.Prelude.{ℕ, ◌+◌, ◌*◌, ◌/◌, ◌%◌, ◌^◌, ◌<◌, ◌≡◌, arith}

-- `seg_desc_t`
pub record SegDesc : Type 0 where
  pub seg_lim_15_00 : ℕ
  pub base_15_00 : ℕ
  pub base_23_16 : ℕ
  pub type : ℕ
  pub sys : ℕ
  pub dpl : ℕ
  pub present : ℕ
  pub seg_lim_19_16 : ℕ
  pub avail : ℕ
  pub reserved : ℕ
  pub opsize : ℕ
  pub granularity : ℕ
  pub base_31_24 : ℕ

-- SET_LDT_PARAMS and SET_TSS_PARAMS, which set the same fields; the others are arguments.
pub segment : ℕ → ℕ → ℕ → ℕ → SegDesc
segment type opsize addr lim = record {
  seg_lim_15_00 = lim % 2 ^ 16;
  base_15_00 = addr % 2 ^ 16;
  base_23_16 = addr / 2 ^ 16 % 2 ^ 8;
  type = type;
  sys = 0;
  dpl = 0;
  present = 1;
  seg_lim_19_16 = lim / 2 ^ 16 % 2 ^ 4;
  avail = 0;
  reserved = 0;
  opsize = opsize;
  granularity = 0;
  base_31_24 = addr / 2 ^ 24 % 2 ^ 8;
}

pub ldt_segment : ℕ → ℕ → SegDesc
unfolding segment
ldt_segment addr lim = segment 2 1 addr lim

-- The limit from TSS_SIZE, set first, is replaced by that from `tss_size`.
pub tss_segment : ℕ → ℕ → SegDesc
unfolding segment
tss_segment addr lim = segment 9 0 addr lim

-- The address and the limit that the processor puts together from a descriptor.
abbrev pub base : SegDesc → ℕ
base d = d.base_15_00 + d.base_23_16 * 2 ^ 16 + d.base_31_24 * 2 ^ 24

abbrev pub limit : SegDesc → ℕ
limit d = d.seg_lim_15_00 + d.seg_lim_19_16 * 2 ^ 16

-- The descriptors of the LDT and the TSS give back the 32-bit addresses and the limits below 2 ^ 20
-- that they are built from.
pub segments_lem :
    (ldt ldt_size tss tss_size : ℕ)
    → ldt < 2 ^ 32
    → tss < 2 ^ 32
    → ldt_size < 2 ^ 20
    → tss_size < 2 ^ 20
    → (base (ldt_segment ldt ldt_size) ≡ ldt)
      × (limit (ldt_segment ldt ldt_size) ≡ ldt_size)
      × (base (tss_segment tss tss_size) ≡ tss)
      × (limit (tss_segment tss tss_size) ≡ tss_size)
unfolding ldt_segment tss_segment segment
segments_lem ldt ldt_size tss tss_size a b c d =
    (omega arith, omega arith, omega arith, omega arith)
