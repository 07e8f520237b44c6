-- ===== src/Common/Split.antt =====
-- The splitting loop `while (std::getline(stream, token, delimiter))`.
use Prim.Native.Nat.{ℕ}
use mathlib.Core.Path.{◌≡◌, refl}
use mathlib.Core.Logic.{◌≢◌}
use mathlib.Core.Bool.{true, false}
use mathlib.Core.Option.{Option, none, some}
use mathlib.Core.List.{List, [], ◌∷◌, ◌++◌, append_assoc, append-nil}
use native.Mathlib.Omega.{arith}
use ros2_modular_edge_offloa.Common.Tests.{◌==◌}
use ros2_modular_edge_offloa.Common.Lists.{Bytes, Lacks}

-- At the end of the stream `getline` fails if it read nothing, so an empty last field is no token.
abbrev last_token : Bytes → List Bytes
last_token [] = []
last_token (c ∷ cur) = (c ∷ cur) ∷ []

-- `cur` is what the present call of `getline` has read.
unfoldable pub cut : ℕ → Bytes → Bytes → List Bytes
cut sep cur [] = last_token cur
cut sep cur (c ∷ s) = elim (c == sep) [
  | true ↦ cur ∷ cut sep [] s
  | false ↦ cut sep (cur ++ c ∷ []) s
]

-- A field without the separator that is followed by one is the next token, and may be empty.
pub cut_field :
    (sep : ℕ) (cur p rest : Bytes)
    → Lacks sep p
    → cut sep cur (p ++ sep ∷ rest) ≡ (cur ++ p) ∷ cut sep [] rest
unfolding cut
cut_field sep cur [] rest h = ground (arith, append-nil cur)
cut_field sep cur (c ∷ p) rest (hc, hp) =
    ground (arith, cut_field sep (cur ++ c ∷ []) p rest hp, append_assoc cur (c ∷ []) p)

cut_plain : (sep : ℕ) (cur p : Bytes) → Lacks sep p → cut sep cur p ≡ last_token (cur ++ p)
unfolding cut
cut_plain sep cur [] h = rw append-nil
cut_plain sep cur (c ∷ p) (hc, hp) =
    ground (arith, cut_plain sep (cur ++ c ∷ []) p hp, append_assoc cur (c ∷ []) p)

-- The last field is a token if it is not empty.
pub cut_last : (sep : ℕ) (p : Bytes) → Lacks sep p → p ≢ [] → cut sep [] p ≡ p ∷ []
cut_last sep [] h ne = absurd (ne refl)
cut_last sep (c ∷ p) h ne = cut_plain sep [] (c ∷ p) h

pub cut_empty : (sep : ℕ) → cut sep [] [] ≡ []
unfolding cut
cut_empty sep = refl

-- `s.find(sep)`, and `substr` before it and behind it.
unfoldable pub split_first : ℕ → Bytes → Option (Bytes × Bytes)
split_first sep [] = none
split_first sep (c ∷ s) = elim (c == sep) [
  | true ↦ some ([], s)
  | false ↦ elim (split_first sep s) [ none ↦ none | some parts ↦ some (c ∷ parts.0, parts.1) ]
]

pub split_first_field :
    (sep : ℕ) (p s : Bytes) → Lacks sep p → split_first sep (p ++ sep ∷ s) ≡ some (p, s)
unfolding split_first
split_first_field sep [] s h = ground arith
split_first_field sep (c ∷ p) s (hc, hp) = ground (arith, split_first_field sep p s hp)
