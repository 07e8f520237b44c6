-- ===== src/Common/Maps.antt =====
-- std::map and std::unordered_map as association lists. An insertion replaces the value in place, an
-- erasure removes every pair of the key, so the order of iteration is that of the first insertions.
pub mod Distinct
use mathlib.Core.Path.{◌≡◌, refl}
use mathlib.Core.Logic.{◌≢◌}
use mathlib.Core.Option.{Option, none, some}
use mathlib.Core.List.{List, [], ◌∷◌}
use native.Mathlib.Omega.{arith}
use ros2_modular_edge_offloa.Common.Tests.{if◌then◌else◌}
use ros2_modular_edge_offloa.Common.Eq.{Eq}

module _ {ℓ κ} {K : Type ℓ} {V : Type κ} ⦃e : Eq K⦄ where
  unfoldable pub find : K → List (K × V) → Option V
  find k [] = none
  find k ((j, v) ∷ m) = if e.beq j k then some v else find k m

  unfoldable pub insert : K → V → List (K × V) → List (K × V)
  insert k v [] = (k, v) ∷ []
  insert k v ((j, w) ∷ m) = if e.beq j k then (j, v) ∷ m else (j, w) ∷ insert k v m

  unfoldable pub erase : K → List (K × V) → List (K × V)
  erase k [] = []
  erase k ((j, v) ∷ m) = let rest = erase k m in if e.beq j k then rest else (j, v) ∷ rest

  -- `map[key] = f(map[key])` at a key that may be missing.
  unfoldable pub update : K → (V → V) → List (K × V) → List (K × V)
  update k f [] = []
  update k f ((j, v) ∷ m) = if e.beq j k then (j, f v) ∷ m else (j, v) ∷ update k f m

  pub find-insert :
      (k j : K) (v : V) (m : List (K × V))
      → find j (insert k v m) ≡ (if e.beq k j then some v else find j m)
  unfolding find insert
  find-insert k j v [] = refl
  find-insert k j v ((i, w) ∷ m) =
      ground (arith, e.beq_iff k j, e.beq_iff i k, e.beq_iff i j, find-insert k j v m)

  pub find-erase :
      (k j : K) (m : List (K × V)) → find j (erase k m) ≡ (if e.beq k j then none else find j m)
  unfolding find erase
  find-erase k j [] = ground arith
  find-erase k j ((i, w) ∷ m) =
      ground (arith, e.beq_iff k j, e.beq_iff i k, e.beq_iff i j, find-erase k j m)

  pub find-insert_self : (k : K) (v : V) (m : List (K × V)) → find k (insert k v m) ≡ some v
  find-insert_self k v m = rw (find-insert, (e.beq_iff k k).1 refl)

  pub find-insert_ne :
      (k j : K) (v : V) (m : List (K × V)) → k ≢ j → find j (insert k v m) ≡ find j m
  find-insert_ne k j v m h = ground (arith, find-insert k j v m, e.beq_iff k j)

  pub find-erase_self : (k : K) (m : List (K × V)) → find k (erase k m) ≡ none
  find-erase_self k m = rw (find-erase, (e.beq_iff k k).1 refl)

  pub find-erase_ne : (k j : K) (m : List (K × V)) → k ≢ j → find j (erase k m) ≡ find j m
  find-erase_ne k j m h = ground (arith, find-erase k j m, e.beq_iff k j)

  pub find-update_self :
      (k : K) (f : V → V) (v : V) (m : List (K × V))
      → find k m ≡ some v
      → find k (update k f m) ≡ some (f v)
  unfolding find update
  find-update_self k f v [] h = cc
  find-update_self k f v ((i, w) ∷ m) h = ground (arith, e.beq_iff i k, find-update_self k f v m)

  pub find-update_ne :
      (k j : K) (f : V → V) (m : List (K × V)) → k ≢ j → find j (update k f m) ≡ find j m
  unfolding find update
  find-update_ne k j f [] h = refl
  find-update_ne k j f ((i, w) ∷ m) h =
      ground (arith, e.beq_iff i k, e.beq_iff i j, find-update_ne k j f m h)

  pub update_missing : (k : K) (f : V → V) (m : List (K × V)) → find k m ≡ none → update k f m ≡ m
  unfolding find update
  update_missing k f [] h = refl
  update_missing k f ((i, w) ∷ m) h = ground (arith, update_missing k f m)
