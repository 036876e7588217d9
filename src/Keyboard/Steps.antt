-- ===== src/Keyboard/Steps.antt =====
-- What every step of the driver keeps: the lines of all terminals, and the ALT flag but for
-- `toggle_alt`.
use linux_base_operating_sys.Prelude.{
  ℕ, ◌<◌, ◌≡◌, ◌≢◌, refl, Bool, true, false, arith, fill, fill_lem, lt→ltb,
}
use linux_base_operating_sys.Keyboard.{
  Keyboard, put_char, drop_char, clear_buffer, has_room, buffer_size, keyboard_init, toggle_caps,
  toggle_shift, toggle_ctrl, toggle_alt,
}
use linux_base_operating_sys.Keyboard.Line.{IsLine}

-- The lines of all terminals are well formed.
pub record Lines (k : Keyboard) : Type 0 where
  pub each : (t : ℕ) → IsLine t k

pub record Steady (k k' : Keyboard) : Type 0 where
  pub lines : Lines k → Lines k'
  pub alt : k'.alt_flag ≡ k.alt_flag

same_buffers :
    {k k' : Keyboard} → k'.buffer_index ≡ k.buffer_index → k'.buffer ≡ k.buffer → Lines k → Lines k'
same_buffers e f v = record {
  each = λ t. record {
    room = rw e (v.each t).room;
    blank = λ j a b. rw f ((v.each t).blank j (rw e at a) b);
  };
}

pub toggle_caps-Steady : (t : ℕ) (k : Keyboard) → Steady k (toggle_caps t k)
unfolding toggle_caps
toggle_caps-Steady t k = record {
  lines = same_buffers (ground arith) (ground arith);
  alt = ground arith;
}

pub toggle_shift-Steady : (t : ℕ) (make : Bool) (k : Keyboard) → Steady k (toggle_shift t make k)
unfolding toggle_shift
toggle_shift-Steady t true k = record {
  lines = same_buffers (ground arith) (ground arith);
  alt = ground arith;
}
toggle_shift-Steady t false k = record {
  lines = same_buffers (ground arith) (ground arith);
  alt = ground arith;
}

pub toggle_ctrl-Steady : (make : Bool) (k : Keyboard) → Steady k (toggle_ctrl make k)
unfolding toggle_ctrl
toggle_ctrl-Steady make k = record { lines = same_buffers refl refl; alt = refl }

pub toggle_alt-Lines :
    (k : Keyboard) → (Lines k → Lines (toggle_alt true k)) × ((toggle_alt true k).alt_flag ≡ 1)
unfolding toggle_alt
toggle_alt-Lines k = (same_buffers refl refl, refl)

pub put_char-Steady : (t c : ℕ) (k : Keyboard) → has_room t k ≡ true → Steady k (put_char t c k)
unfolding put_char has_room
put_char-Steady t c k room = record {
  lines = λ v. record {
    each = λ u. record {
      room = ground (arith, room, (v.each u).room);
      blank = λ j a b. ground (arith, (v.each u).blank j);
    };
  };
  alt = refl;
}

pub drop_char-Steady : (t : ℕ) (k : Keyboard) → k.buffer_index t ≢ 0 → Steady k (drop_char t k)
unfolding drop_char
drop_char-Steady t k some_ = record {
  lines = λ v. record {
    each = λ u. record {
      room = ground (arith, (v.each u).room);
      blank = λ j a b. ground (arith, (v.each u).blank j);
    };
  };
  alt = refl;
}

pub clear_buffer-Steady : (t : ℕ) (k : Keyboard) → Steady k (clear_buffer t k)
unfolding clear_buffer
clear_buffer-Steady t k = record {
  lines = λ v. record {
    each = λ u. record {
      room = ground (arith, (v.each u).room);
      blank =
          λ j a b. ground (arith, (v.each u).blank j, fill_lem buffer_size (λ i. 0) (k.buffer t) j);
    };
  };
  alt = refl;
}

-- After `keyboard_init` the lines of the three terminals are empty and well formed.
keyboard_init-IsLine : (t : ℕ) (k : Keyboard) → t < 3 → IsLine t (keyboard_init k)
unfolding keyboard_init
keyboard_init-IsLine t k h = record {
  room = ground (arith, fill_lem 3 (λ u. 0) k.buffer_index t);
  blank = λ j a b.
      rw
        (
          fill_lem 3 (λ u. fill buffer_size (λ i. 0) (k.buffer u)) k.buffer t,
          lt→ltb t 3 h,
          fill_lem buffer_size (λ i. 0) (k.buffer t) j,
          lt→ltb j buffer_size b,
        )
        refl;
}

-- The initialisation empties the lines.
pub keyboard_init-empty : (k : Keyboard) (t : ℕ) → t < 3 → (keyboard_init k).buffer_index t ≡ 0
unfolding keyboard_init
keyboard_init-empty k t lt = ground (arith, fill_lem 3 (λ j. 0) k.buffer_index t)
