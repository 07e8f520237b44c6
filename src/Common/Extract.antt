-- ===== src/Common/Extract.antt =====
-- `operator>>` of an input stream for an `int` and for a `char`: the value and what is left. `none` is the fail
-- bit. The value is the one that std::stoi reads.
pub mod Printed
use Prim.Native.Nat.{ℕ}
use mathlib.Core.Bool.{◌||◌}
use mathlib.Core.Option.{Option, none, some}
use mathlib.Core.List.{[], ◌∷◌}
use ros2_modular_edge_offloa.Common.Tests.{◌==◌, if◌then◌else◌}
use ros2_modular_edge_offloa.Common.Lists.{Bytes}
use ros2_modular_edge_offloa.Common.Int.{ℤ}
use ros2_modular_edge_offloa.Common.Decimal.{stoi, is_space, is_digit}

skip_spaces : Bytes → Bytes
skip_spaces [] = []
skip_spaces (c ∷ s) = let rest = skip_spaces s in if is_space c then rest else c ∷ s

skip_digits : Bytes → Bytes
skip_digits [] = []
skip_digits (c ∷ s) = let rest = skip_digits s in if is_digit c then rest else c ∷ s

skip_sign : Bytes → Bytes
skip_sign [] = []
skip_sign (c ∷ s) = if c == b'-' || c == b'+' then s else c ∷ s

unfoldable pub extract_int : Bytes → Option (ℤ × Bytes)
unfolding skip_spaces skip_digits skip_sign
extract_int s = elim (stoi s) [
  | none ↦ none
  | some z ↦ some (z, skip_digits (skip_sign (skip_spaces s)))
]

first_char : Bytes → Option (ℕ × Bytes)
first_char [] = none
first_char (c ∷ s) = some (c, s)

unfoldable pub extract_char : Bytes → Option (ℕ × Bytes)
unfolding skip_spaces first_char
extract_char s = first_char (skip_spaces s)
