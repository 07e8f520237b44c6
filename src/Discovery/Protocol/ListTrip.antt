-- ===== src/Discovery/Protocol/ListTrip.antt =====
-- What the decoder reads of an encoded component list.
use ros2_modular_edge_offloa.Common.{
  ℕ, suc, ◌+◌, ◌%◌, ◌^◌, ◌<◌, ◌≤◌, ◌≡◌, ◌≢◌, refl, ap, ◌∙◌, some, arith, List, [], ◌∷◌, ◌++◌, Bytes,
  All, Lacks, codes, length, length-append, append_assoc, get_elem?, get_or,
}
use ros2_modular_edge_offloa.Common.Int.{pos, u32}
use ros2_modular_edge_offloa.Common.Decimal.{to_string, stoi-to_string}
use ros2_modular_edge_offloa.Discovery.Protocol.{
  ComponentListResponse, component_list, split_string,
}
use ros2_modular_edge_offloa.Discovery.Protocol.Codec.{
  decoded, decode_component_list_response, list_of_parts, collect,
}
use ros2_modular_edge_offloa.Discovery.Protocol.Encode.{encode_message}
use ros2_modular_edge_offloa.Discovery.Protocol.Join.{trimmed_full, trimmed-append}
use ros2_modular_edge_offloa.Discovery.Protocol.Fields.{texts, InRange, split_message}

get_elem?-append_at {ℓ} :
    {A : Type ℓ} (xs : List A) (y : A) (ys : List A) → get_elem? (xs ++ y ∷ ys) (length xs) ≡ some y
get_elem?-append_at [] y ys = refl
get_elem?-append_at (x ∷ xs) y ys = get_elem?-append_at xs y ys

get_or-append_at {ℓ} :
    {A : Type ℓ} (xs : List A) (y : A) (ys : List A) (d : A)
    → get_or (xs ++ y ∷ ys) (length xs) d ≡ y
get_or-append_at [] y ys d = refl
get_or-append_at (x ∷ xs) y ys d = get_or-append_at xs y ys d

-- The loop reads the parts behind the first two.
collect-append :
    (front : List Bytes) (i : ℕ) (cs : List Bytes) (m : Bytes)
    → length front ≡ 2 + i
    → 2 + i + length cs < 2 ^ 32
    → collect (front ++ (cs ++ m ∷ [])) (length cs) i ≡ cs
unfolding collect
collect-append front i [] m l h = refl
collect-append front i (c ∷ cs) m l h =
    let small : (2 + i) % 2 ^ 32 ≡ length front = omega arith in
    let later : collect (front ++ (c ∷ (cs ++ m ∷ []))) (length cs) (suc i) ≡ cs =
      rw (append_assoc front (c ∷ []) (cs ++ m ∷ [])) at (
        collect-append (front ++ c ∷ []) (suc i) cs m (omega (arith, length-append front (c ∷ [])))
          (omega arith)) in
    rw (collect, small, get_elem?-append_at front c (cs ++ m ∷ [])) (ap (◌∷◌ c) later)

list_of_parts_lem :
    (h n : Bytes) (cs : List Bytes) (m : Bytes)
    → length cs ≤ 2147483647
    → list_of_parts (h ∷ n ∷ (cs ++ m ∷ [])) (length cs)
      ≡ decoded (record {
        component_count = length cs;
        component_data_list = cs;
        human_readable_message = m;
      })
unfolding list_of_parts
list_of_parts_lem h n cs m b =
    let small : (2 + length cs) % 2 ^ 32 ≡ suc (suc (length cs)) = omega arith in
    ground (
      arith,
      small,
      length-append cs (m ∷ []),
      collect-append (h ∷ n ∷ []) 0 cs m refl (omega arith),
      get_or-append_at cs m [] [],
    )

pub list_trip :
    (l : ComponentListResponse)
    → InRange (component_list l)
    → All (Lacks b';') (texts (component_list l))
    → Lacks b';' l.human_readable_message
    → l.human_readable_message ≢ []
    → decode_component_list_response (encode_message (component_list l)) ≡ decoded l
unfolding decode_component_list_response
list_trip l (count, bound) clean last full =
    let head : Bytes = codes "DISC:LST" in
    let number : Bytes = to_string l.component_count in
    let all : List Bytes =
      head ∷ number ∷ (l.component_data_list ++ l.human_readable_message ∷ []) in
    let parts : split_string (encode_message (component_list l)) b';' ≡ all =
      split_message (component_list l) clean last
      ∙ trimmed-append (head ∷ number ∷ l.component_data_list) l.human_readable_message []
      ∙ rw (trimmed_full l.human_readable_message full) refl in
    let wrap : u32 (pos l.component_count) ≡ length l.component_data_list = omega arith in
    ground (
      arith,
      parts,
      wrap,
      stoi-to_string l.component_count bound,
      length-append l.component_data_list (l.human_readable_message ∷ []),
      list_of_parts_lem head number l.component_data_list l.human_readable_message (omega arith),
    )
