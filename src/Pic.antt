-- ===== src/Pic.antt =====
-- The interrupt controllers of student-distrib/i8259.c: the masks, and the bytes sent to the ports.
pub mod Lines
use linux_base_operating_sys.Prelude.{
  ℕ, ◌+◌, ◌-◌, ◌%◌, ◌^◌, ltb, leb, if◌then◌else◌, List, [], ◌∷◌, ◌++◌, bit_and, bit_or,
}

abbrev master_8259_port : ℕ
master_8259_port = 0x20

abbrev slave_8259_port : ℕ
slave_8259_port = 0xA0

abbrev pub master_md : ℕ
master_md = 0x21

abbrev pub slave_md : ℕ
slave_md = 0xA1

abbrev byte_mask : ℕ
byte_mask = 0xFF

abbrev slave_irq : ℕ
slave_irq = 2

abbrev eoi : ℕ
eoi = 0x60

-- `outb` keeps the bytes sent, each as (port, value), in order.
pub record Pic : Type 0 where
  pub master_mask : ℕ
  pub slave_mask : ℕ
  pub outb : List (ℕ × ℕ)

-- The low byte of `1 << n`.
abbrev line_bit : ℕ → ℕ
line_bit n = 2 ^ n % 256

-- `mask &= ~(1 << n)` and `mask |= 1 << n` on a byte.
unmask : ℕ → ℕ → ℕ
unmask mask n = bit_and mask (255 - line_bit n)

set_mask : ℕ → ℕ → ℕ
set_mask mask n = bit_or mask (line_bit n)

abbrev sent : Pic → ℕ → ℕ → List (ℕ × ℕ)
sent p port value = p.outb ++ ((port, value) ∷ [])

pub enable_irq : ℕ → Pic → Pic
unfolding unmask
enable_irq irq_num p =
    if ltb irq_num 8
    then record p {
      master_mask = unmask p.master_mask irq_num;
      outb = sent p master_md (unmask p.master_mask irq_num);
    }
    else record p {
      slave_mask = unmask p.slave_mask (irq_num - 8);
      outb = sent p slave_md (unmask p.slave_mask (irq_num - 8));
    }

pub disable_irq : ℕ → Pic → Pic
unfolding set_mask
disable_irq irq_num p =
    if ltb irq_num 8
    then record p {
      master_mask = set_mask p.master_mask irq_num;
      outb = sent p master_md (set_mask p.master_mask irq_num);
    }
    else record p {
      slave_mask = set_mask p.slave_mask (irq_num - 8);
      outb = sent p slave_md (set_mask p.slave_mask (irq_num - 8));
    }

pub i8259_init : Pic → Pic
i8259_init p = enable_irq slave_irq (record p {
  master_mask = byte_mask;
  slave_mask = byte_mask;
  outb =
      p.outb
      ++ ((master_8259_port, 0x11)
          ∷ (master_md, 0x20)
          ∷ (master_md, 0x04)
          ∷ (master_md, 0x01)
          ∷ (slave_8259_port, 0x11)
          ∷ (slave_md, 0x28)
          ∷ (slave_md, 0x02)
          ∷ (slave_md, 0x01)
          ∷ (master_md, byte_mask)
          ∷ (slave_md, byte_mask)
          ∷ []);
})

pub send_eoi : ℕ → Pic → Pic
send_eoi irq_num p =
    if leb 8 irq_num
    then record p {
      outb =
          p.outb
          ++ ((master_8259_port, bit_or eoi slave_irq)
              ∷ (slave_8259_port, bit_or eoi (irq_num - 8))
              ∷ []);
    }
    else record p { outb = sent p master_8259_port (bit_or eoi irq_num) }
