-- ===== src/Prelude/Int.antt =====
-- The `i64` of Rust as an integer; results are brought back into range by `wrap_i64`.
use Prim.Native.Nat.{ℕ, suc, ◌-◌, ◌^◌, ◌%◌, ◌<◌, compare, Ordering}
use mathlib.Core.Path.{◌≡◌}
use mathlib.Core.Logic.{◌↔◌}
use mathlib.Core.Bool.{Bool, true, false, ◌&&◌}
use mathlib.Core.Option.{Option, none, some}
use native.Mathlib.Omega.{arith}
use skvs.Prelude.Tests.{ltb, nat_beq, if◌then◌else◌}

-- `negsuc n` is -(n + 1).
pub data ℤ : Type 0 where
  pos : ℕ → ℤ
  negsuc : ℕ → ℤ

abbrev pub compare_ℤ : ℤ → ℤ → Ordering
compare_ℤ (pos a) (pos b) = compare a b
compare_ℤ (pos a) (negsuc b) = Ordering.gt
compare_ℤ (negsuc a) (pos b) = Ordering.lt
compare_ℤ (negsuc a) (negsuc b) = compare b a

abbrev pub int_beq : ℤ → ℤ → Bool
int_beq (pos a) (pos b) = nat_beq a b
int_beq (negsuc a) (negsuc b) = nat_beq a b
int_beq _ _ = false

pub int_beq_iff : (a b : ℤ) → (int_beq a b ≡ true) ↔ (a ≡ b)
int_beq_iff a b = ground arith

-- The two's complement value of a bit pattern below 2 ^ 64.
abbrev pub of_bits : ℕ → ℤ
of_bits n = if ltb n (2 ^ 63) then pos n else negsuc (2 ^ 64 - 1 - n)

abbrev pub wrap_i64 : ℤ → ℤ
wrap_i64 (pos n) = of_bits (n % 2 ^ 64)
wrap_i64 (negsuc n) = of_bits (2 ^ 64 - 1 - n % 2 ^ 64)

abbrev pub InRange : ℤ → Type 0
InRange (pos n) = n < 2 ^ 63
InRange (negsuc n) = n < 2 ^ 63

-- The negation, with the wrap at the least value.
abbrev pub neg_i64 : ℤ → ℤ
neg_i64 (pos n) = if nat_beq n 0 then pos 0 else negsuc (n - 1)
neg_i64 (negsuc n) = wrap_i64 (pos (suc n))

-- Rust's `%` truncates: the result has the sign of the left operand. `none` is the panic of the
-- least i64 and -1.
abbrev pub magnitude : ℤ → ℕ
magnitude (pos n) = n
magnitude (negsuc n) = suc n

abbrev pub signed_like : ℤ → ℕ → ℤ
signed_like (pos _) m = pos m
signed_like (negsuc _) m = if nat_beq m 0 then pos 0 else negsuc (m - 1)

abbrev pub overflows_rem : ℤ → ℤ → Bool
overflows_rem (negsuc n) (negsuc m) = nat_beq n (2 ^ 63 - 1) && nat_beq m 0
overflows_rem _ _ = false

abbrev pub rem_i64 : ℤ → ℤ → Option ℤ
rem_i64 a b = if overflows_rem a b then none else some (signed_like a (magnitude a % magnitude b))

-- `as u64`
abbrev pub to_u64 : ℤ → ℕ
to_u64 (pos n) = n % 2 ^ 64
to_u64 (negsuc n) = 2 ^ 64 - 1 - n % 2 ^ 64
