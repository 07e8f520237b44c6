-- ===== src/Discovery/Registry/Rounds.antt =====
-- The round robin over the bridges.
use ros2_modular_edge_offloa.Common.{
  ℕ, Bool, true, false, ◌≡◌, refl, sym, ◌∙◌, ap, inl, inr, arith, none, some, List, [], ◌∷◌, All,
  length, map, ◌==◌, Option-cases, Bool-cases, ==_iff,
}
use ros2_modular_edge_offloa.Common.Eq.{nat_eq}
use ros2_modular_edge_offloa.Common.Maps.{find}
use ros2_modular_edge_offloa.Discovery.Registry.{
  id_eq, ComponentInfo, id_of, ComponentRegistry, is_bridge, is_id_taken, find_available_bridge,
  find_available_om, find_by_client_id, register_component, unregister_component, update_keepalive,
  wrap_index, push_if, erase_if, erase_all,
}
use ros2_modular_edge_offloa.Discovery.Registry.Consistent.{IsConsistent, elem, has_type}
use ros2_modular_edge_offloa.Discovery.Registry.Register.{elem-push, elem-erase_all}
use ros2_modular_edge_offloa.Discovery.Registry.Reached.{
  Reached, start, register, unregister, keepalive, next_bridge, next_om, Reached-IsConsistent,
}
use ros2_modular_edge_offloa.Discovery.Registry.Lookup.{picks, picks-find_by_client_id}

-- No number stands twice.
abbrev pub NoRepeat : List ℕ → Type 0
NoRepeat [] = Unit
NoRepeat (x ∷ xs) = (elem x xs ≡ false) × NoRepeat xs

push-NoRepeat :
    (b : Bool) (x : ℕ) (xs : List ℕ) → elem x xs ≡ false → NoRepeat xs → NoRepeat (push_if b x xs)
push-NoRepeat false x xs new d = d
push-NoRepeat true x [] new d = (refl, tt)
push-NoRepeat true x (y ∷ ys) new (fresh, d) = (
  ground (arith, elem-push true y x ys, ==_iff y x, ==_iff x y),
  push-NoRepeat true x ys (ground arith) d,
)

erase_all-NoRepeat : (x : ℕ) (xs : List ℕ) → NoRepeat xs → NoRepeat (erase_all x xs)
erase_all-NoRepeat x [] d = tt
erase_all-NoRepeat x (y ∷ ys) (fresh, d) =
    ground (arith, elem-erase_all y x ys, erase_all-NoRepeat x ys d)

erase_if-NoRepeat : (b : Bool) (x : ℕ) (xs : List ℕ) → NoRepeat xs → NoRepeat (erase_if b x xs)
erase_if-NoRepeat false x xs d = d
erase_if-NoRepeat true x xs d = erase_all-NoRepeat x xs d

-- A client that is not registered is not in the list of bridges.
not_listed :
    (r : ComponentRegistry) (c : ℕ)
    → IsConsistent r
    → find c r.registry_by_client_id ≡ none
    → elem c r.bridge_client_ids ≡ false
not_listed r c v unknown = ground (arith, v.bridges c)

Reached-NoRepeat : (r : ComponentRegistry) → Reached r → NoRepeat r.bridge_client_ids
unfolding find_by_client_id register_component unregister_component update_keepalive
    find_available_bridge find_available_om
Reached-NoRepeat _ start = tt
Reached-NoRepeat _ (register {r} info new before) = elim (Bool-cases (is_id_taken r (id_of info))) [
  | inl taken ↦ rw taken (Reached-NoRepeat r before)
  | inr free ↦ rw free (
      push-NoRepeat (is_bridge info.component_type) info.client_id r.bridge_client_ids
        (not_listed r info.client_id (Reached-IsConsistent r before) new)
        (Reached-NoRepeat r before))
]
Reached-NoRepeat _ (unregister {r} c before) =
    elim (Option-cases (find c r.registry_by_client_id)) [
      | inl missing ↦ rw (unregister_component, missing) (Reached-NoRepeat r before)
      | inr (info, known) ↦
          rw (unregister_component, known)
            (erase_if-NoRepeat (is_bridge info.component_type) c r.bridge_client_ids
              (Reached-NoRepeat r before))
    ]
Reached-NoRepeat _ (keepalive {r} k now before) =
    elim (Option-cases (find k r.client_id_by_component_id)) [
      | inl missing ↦ rw (update_keepalive, missing) (Reached-NoRepeat r before)
      | inr (c, found) ↦ elim (Option-cases (find c r.registry_by_client_id)) [
        | inl gone ↦ rw (update_keepalive, found, gone) (Reached-NoRepeat r before)
        | inr (info, known) ↦ rw (update_keepalive, found, known) (Reached-NoRepeat r before)
      ]
    ]
Reached-NoRepeat _ (next_bridge {r} before) = elim (Bool-cases (length r.bridge_client_ids == 0)) [
  | inl none_there ↦ rw none_there (Reached-NoRepeat r before)
  | inr some_there ↦ rw some_there (Reached-NoRepeat r before)
]
Reached-NoRepeat _ (next_om {r} before) = elim (Bool-cases (length r.om_client_ids == 0)) [
  | inl none_there ↦ rw none_there (Reached-NoRepeat r before)
  | inr some_there ↦ rw some_there (Reached-NoRepeat r before)
]

-- The components of registered clients.
record Found (r : ComponentRegistry) (ids : List ℕ) : Type 0 where
  infos : List ComponentInfo
  answers : map (find_by_client_id r) ids ≡ map some infos
  same_ids : map (λ i. i.client_id) infos ≡ ids
  known : All (λ i. find_by_client_id r i.client_id ≡ some i) infos

found :
    (r : ComponentRegistry) (ids : List ℕ)
    → IsConsistent r
    → ((c : ℕ) → elem c ids ≡ true → has_type is_bridge (find_by_client_id r c) ≡ true)
    → Found r ids
unfolding find_by_client_id
found r [] v listed = record { infos = []; answers = refl; same_ids = refl; known = tt }
found r (x ∷ xs) v listed =
    let rest = found r xs v (λ c e. listed c (ground arith)) in
    let here = listed x (ground (arith, ==_iff x x)) in
    elim (Option-cases (find x r.registry_by_client_id)) [
      | inl missing ↦ absurd (ground (arith, here))
      | inr (info, e) ↦
          let own = (v.own x info e).0 in
          record {
            infos = info ∷ rest.infos;
            answers = rw (e, rest.answers) refl;
            same_ids = rw (own, rest.same_ids) refl;
            known = (ap (λ k. find k r.registry_by_client_id) own ∙ e, rest.known);
          }
    ]

-- From the start of a round on, as many calls as there are entries in the list of bridges answer with the registered
-- bridges, each of them once and nothing else, if no client registered while it was registered.
pub find_available_bridge_round :
    (r : ComponentRegistry)
    → Reached r
    → wrap_index r.next_bridge_idx r.bridge_client_ids ≡ 0
    → (infos : List ComponentInfo) × (picks (length r.bridge_client_ids) r ≡ map some infos)
      × NoRepeat (map (λ i. i.client_id) infos)
      × All (λ i. find_by_client_id r i.client_id ≡ some i) infos
      × ((c : ℕ)
          → elem c (map (λ i. i.client_id) infos) ≡ has_type is_bridge (find_by_client_id r c))
unfolding find_by_client_id
find_available_bridge_round r reached at_start =
    let v = Reached-IsConsistent r reached in
    let f = found r r.bridge_client_ids v (λ c e. sym (v.bridges c) ∙ e) in
    (
      f.infos,
      picks-find_by_client_id r at_start ∙ f.answers,
      rw (f.same_ids) (Reached-NoRepeat r reached),
      f.known,
      λ c. rw (f.same_ids) (v.bridges c),
    )
