-- ===== src/Discovery/Service/Events/Query.antt =====
-- What a client reads of the answer to its query.
use ros2_modular_edge_offloa.Common.{
  ℕ, ◌≤◌, ◌≡◌, ◌≢◌, arith, List, [], ◌∷◌, Bytes, All, All-append, Lacks, length, length-map, map,
}
use ros2_modular_edge_offloa.Common.Decimal.{to_string, to_string-Lacks}
use ros2_modular_edge_offloa.Discovery.Protocol.{
  ComponentType, vehicle, mec, bridge, offload_manager, test, component_list,
  component_type_to_string, string_to_component_type,
}
use ros2_modular_edge_offloa.Discovery.Protocol.Codec.{decoded, decode_message}
use ros2_modular_edge_offloa.Discovery.Protocol.Encode.{encode_message}
use ros2_modular_edge_offloa.Discovery.Protocol.Component.{format_component_data}
use ros2_modular_edge_offloa.Discovery.Protocol.RoundTrip.{decode_message-encode_message}
use ros2_modular_edge_offloa.Discovery.Registry.{
  ComponentInfo, ComponentRegistry, get_all_components,
}
use ros2_modular_edge_offloa.Discovery.Service.Events.{of_type, data_of, list_response}

length-of_type :
    (t : ComponentType) (components : List ComponentInfo)
    → length (of_type t components) ≤ length components
unfolding of_type
length-of_type t [] = omega arith
length-of_type t (c ∷ components) = ground (arith, length-of_type t components)

letter-Lacks : (t : ComponentType) → Lacks b';' (component_type_to_string t)
unfolding component_type_to_string
letter-Lacks vehicle = (omega arith, tt)
letter-Lacks mec = (omega arith, tt)
letter-Lacks bridge = (omega arith, tt)
letter-Lacks offload_manager = (omega arith, tt)
letter-Lacks test = (omega arith, tt)

entry-Lacks : (info : ComponentInfo) → Lacks b';' (format_component_data (data_of info))
unfolding format_component_data
entry-Lacks info =
    let lacks = λ (c : ℕ). c ≢ b';' in
    let number = λ (n : ℕ). to_string-Lacks b';' n (λ d. omega arith) in
    let colon : b':' ≢ b';' = omega arith in
    All-append lacks (component_type_to_string info.component_type) _
      (letter-Lacks info.component_type)
      (
        colon,
        All-append lacks (to_string info.group_id) _ (number info.group_id) (
          colon,
          All-append lacks (to_string info.id_in_group) _ (number info.id_in_group)
              (colon, number info.component_subtype),
        ),
      )

entries-Lacks :
    (found : List ComponentInfo)
    → All (Lacks b';') (map (λ info. format_component_data (data_of info)) found)
entries-Lacks [] = tt
entries-Lacks (info ∷ found) = (entry-Lacks info, entries-Lacks found)

-- The answer to a query is read back as it was sent, with as many entries as it says, if no more components
-- are registered than an int can count.
pub decode_message-list_response :
    (r : ComponentRegistry) (filter : Bytes)
    → length (get_all_components r) ≤ 2147483647
    → decode_message (encode_message (component_list (list_response r filter)))
      ≡ decoded (component_list (list_response r filter))
unfolding list_response
decode_message-list_response r filter few =
    let found = of_type (string_to_component_type filter) (get_all_components r) in
    let small = length-of_type (string_to_component_type filter) (get_all_components r) in
    let same = length-map (λ info. format_component_data (data_of info)) found in
    decode_message-encode_message (component_list (list_response r filter))
      (omega (arith, small, same), omega (arith, small)) (entries-Lacks found) (ground arith)
      (λ e. cc)
