-- ===== src/Prelude/Machine.antt =====
-- Machine integers: the moduli of the widths that the program uses.
use Prim.Native.Nat.{ℕ, ◌^◌}

abbrev pub u64_mod : ℕ
u64_mod = 2 ^ 64

abbrev pub i64_limit : ℕ
i64_limit = 2 ^ 63
