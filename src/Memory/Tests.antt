-- ===== src/Memory/Tests.antt =====
-- The memory functions at small stretches.
use linux_base_operating_sys.Prelude.{
  ℕ, ◌+◌, ◌-◌, ◌%◌, ◌≡◌, inl, ltb, leb, ◌&&◌, if◌then◌else◌, arith,
}
use linux_base_operating_sys.Memory.{memcpy, memmove}
use linux_base_operating_sys.Memory.Copy.{memcpy_lem}
use linux_base_operating_sys.Memory.Move.{memmove_lem}

abbrev numbered : ℕ → ℕ
numbered a = a % 256

memcpy_lem_example :
    memcpy numbered 1 6 9 8
    ≡ (if leb 1 8 && ltb 8 (1 + 9) then numbered (6 + (8 - 1)) else numbered 8)
memcpy_lem_example =
    memcpy_lem numbered 1 6 9 8
      record { apart = inl (omega arith); dest_inside = omega arith; src_inside = omega arith }

memmove_lem_example :
    ((memmove numbered 3 1 9).0 8
      ≡ (if leb 3 8 && ltb 8 (3 + 9) then numbered (1 + (8 - 3)) else numbered 8))
    × ((memmove numbered 3 1 9).1 ≡ ltb 1 3)
memmove_lem_example = memmove_lem numbered 3 1 9 8 (omega arith) (omega arith)
