-- ===== src/Common/Maps/Distinct.antt =====
-- Each key stands once in the list, as in a real map.
use mathlib.Core.Path.{◌≡◌, refl}
use mathlib.Core.Option.{none}
use mathlib.Core.List.{List, [], ◌∷◌}
use native.Mathlib.Omega.{arith}
use ros2_modular_edge_offloa.Common.Eq.{Eq}
use ros2_modular_edge_offloa.Common.Maps.{find, insert, erase, update, find-insert, find-erase}

module _ {ℓ κ} {K : Type ℓ} {V : Type κ} ⦃e : Eq K⦄ where
  abbrev pub Distinct : List (K × V) → Type κ
  Distinct [] = Unit
  Distinct ((k, v) ∷ m) = (find k m ≡ none) × Distinct m

  pub insert-Distinct : (k : K) (v : V) (m : List (K × V)) → Distinct m → Distinct (insert k v m)
  unfolding insert find
  insert-Distinct k v [] d = (refl, tt)
  insert-Distinct k v ((j, w) ∷ m) (fresh, d) =
      ground (arith, e.beq_iff j k, e.beq_iff k j, find-insert k j v m, insert-Distinct k v m d)

  pub erase-Distinct : (k : K) (m : List (K × V)) → Distinct m → Distinct (erase k m)
  unfolding erase
  erase-Distinct k [] d = tt
  erase-Distinct k ((j, w) ∷ m) (fresh, d) = ground (arith, find-erase k j m, erase-Distinct k m d)

  find-update-none :
      (k j : K) (f : V → V) (m : List (K × V)) → find j m ≡ none → find j (update k f m) ≡ none
  unfolding update find
  find-update-none k j f [] h = refl
  find-update-none k j f ((i, w) ∷ m) h = ground (arith, find-update-none k j f m)

  pub update-Distinct :
      (k : K) (f : V → V) (m : List (K × V)) → Distinct m → Distinct (update k f m)
  unfolding update
  update-Distinct k f [] d = tt
  update-Distinct k f ((j, w) ∷ m) (fresh, d) =
      ground (arith, find-update-none k j f m fresh, update-Distinct k f m d)
