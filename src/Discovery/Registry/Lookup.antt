-- ===== src/Discovery/Registry/Lookup.antt =====
-- What the look-ups answer.
use ros2_modular_edge_offloa.Common.{
  ℕ, zero, suc, true, ◌≡◌, refl, sym, ◌∙◌, ◌↔◌, ◌⊎◌, inl, inr, arith, Option, none, some, List, [],
  ◌∷◌, ◌++◌, length, map, append_assoc, length-append, get_or, ◌==◌, Option-cases, Bool-cases,
}
use ros2_modular_edge_offloa.Common.Eq.{nat_eq}
use ros2_modular_edge_offloa.Common.Maps.{find}
use ros2_modular_edge_offloa.Discovery.Registry.{
  ComponentId, id_eq, ComponentInfo, id_of, ComponentRegistry, is_bridge, find_available_bridge,
  find_by_client_id, wrap_index, is_id_taken,
}
use ros2_modular_edge_offloa.Discovery.Registry.Consistent.{get_or-elem}
use ros2_modular_edge_offloa.Discovery.Registry.Reached.{Reached, Reached-IsConsistent}

no_member : (xs : List ℕ) → (length xs == 0) ≡ true → xs ≡ []
no_member [] h = refl
no_member (x ∷ xs) h = absurd (ground arith)

-- An id is taken exactly if a registered component has it, if no client registered while it was registered.
pub is_id_taken_iff :
    (r : ComponentRegistry) (k : ComponentId)
    → Reached r
    → (is_id_taken r k ≡ true)
      ↔ ((c : ℕ) × (info : ComponentInfo) × (find_by_client_id r c ≡ some info) × (id_of info ≡ k))
unfolding is_id_taken find_by_client_id
is_id_taken_iff r k reached =
    let v = Reached-IsConsistent r reached in
    (
      λ taken. elim (Option-cases (find k r.client_id_by_component_id)) [
        | inl missing ↦ absurd (ground arith)
        | inr (c, found) ↦ let w = v.back k c found in (c, w.0, w.1, w.2)
      ],
      λ (c, info, known, e). let own = v.own c info known in ground (arith, own, e),
    )

-- If there is a bridge, the answer is a registered bridge; otherwise there is no answer; if no client
-- registered while it was registered.
pub find_available_bridge_lem :
    (r : ComponentRegistry)
    → Reached r
    → ((r.bridge_client_ids ≡ []) × ((find_available_bridge r).1 ≡ none))
      ⊎ ((info : ComponentInfo) × ((find_available_bridge r).1 ≡ some info)
          × (is_bridge info.component_type ≡ true)
          × (find_by_client_id r info.client_id ≡ some info))
unfolding find_available_bridge find_by_client_id
find_available_bridge_lem r reached =
    let v = Reached-IsConsistent r reached in
    elim (Bool-cases (length r.bridge_client_ids == 0)) [
      | inl none_there ↦ inl (no_member r.bridge_client_ids none_there, rw none_there refl)
      | inr some_there ↦
          let idx = wrap_index r.next_bridge_idx r.bridge_client_ids in
          let c = get_or r.bridge_client_ids idx 0 in
          let member = get_or-elem r.bridge_client_ids idx (ground arith) in
          elim (Option-cases (find c r.registry_by_client_id)) [
            | inl missing ↦ absurd (ground (arith, v.bridges c))
            | inr (info, known) ↦ inr (
              info,
              rw some_there known,
              ground (arith, v.bridges c),
              ground (arith, v.own c info known),
            )
          ]
    ]

-- The answers of `n` calls one after the other.
unfoldable pub picks : ℕ → ComponentRegistry → List (Option ComponentInfo)
picks zero r = []
picks (suc n) r = (find_available_bridge r).1 ∷ picks n (find_available_bridge r).0

get_or-append_at : (xs : List ℕ) (y : ℕ) (ys : List ℕ) → get_or (xs ++ y ∷ ys) (length xs) 0 ≡ y
get_or-append_at [] y ys = refl
get_or-append_at (x ∷ xs) y ys = get_or-append_at xs y ys

pick_one :
    (r : ComponentRegistry) (front : List ℕ) (x : ℕ) (back : List ℕ)
    → r.bridge_client_ids ≡ front ++ (x ∷ back)
    → wrap_index r.next_bridge_idx r.bridge_client_ids ≡ length front
    → find_available_bridge r
      ≡ (record r { next_bridge_idx = suc (length front) }, find_by_client_id r x)
unfolding find_available_bridge
pick_one r front x back e n =
    ground (arith, length-append front (x ∷ back), get_or-append_at front x back)

picks_from :
    (r : ComponentRegistry) (front back : List ℕ)
    → r.bridge_client_ids ≡ front ++ back
    → r.next_bridge_idx ≡ length front
    → picks (length back) r ≡ map (find_by_client_id r) back
unfolding picks find_by_client_id
picks_from r front [] e n = refl
picks_from r front (x ∷ back) e n =
    let l = length-append front (x ∷ back) in
    let one = pick_one r front x back e (ground (arith, l)) in
    let r' : ComponentRegistry = record r { next_bridge_idx = suc (length front) } in
    let later =
      picks_from r' (front ++ x ∷ []) back (e ∙ sym (append_assoc front (x ∷ []) back))
        (omega (arith, length-append front (x ∷ []))) in
    ground (arith, one, later)

picks_round :
    (r : ComponentRegistry) (ids : List ℕ)
    → r.bridge_client_ids ≡ ids
    → wrap_index r.next_bridge_idx r.bridge_client_ids ≡ 0
    → picks (length ids) r ≡ map (find_by_client_id r) ids
unfolding picks find_by_client_id
picks_round r [] e n = refl
picks_round r (x ∷ back) e n =
    let r' : ComponentRegistry = record r { next_bridge_idx = 1 } in
    let one = pick_one r [] x back e n in
    let later = picks_from r' (x ∷ []) back e refl in ground (arith, one, later)

-- From the start of a round on, as many calls as there are ids in the list of bridges look each of them up, in the
-- order of the list.
pub picks-find_by_client_id :
    (r : ComponentRegistry)
    → wrap_index r.next_bridge_idx r.bridge_client_ids ≡ 0
    → picks (length r.bridge_client_ids) r ≡ map (find_by_client_id r) r.bridge_client_ids
picks-find_by_client_id r at_start = picks_round r r.bridge_client_ids refl at_start
