-- ===== src/Discovery/Protocol/Component.antt =====
-- src/protocol.cpp: parse_component_data and format_component_data, the entries of a component list. The fields
-- that a failed parse leaves as the default constructor made them are an argument.
use ros2_modular_edge_offloa.Common.{
  ℕ, ◌<◌, ◌≡◌, refl, Option, none, some, arith, List, [], ◌∷◌, ◌++◌, Bytes, length, get_or, ltb,
  if◌then◌else◌, Lacks,
}
use ros2_modular_edge_offloa.Common.Int.{ℤ, pos, u8}
use ros2_modular_edge_offloa.Common.Decimal.{
  to_string, stoi, stoi-to_string, to_string-Lacks, to_string-ne-nil,
}
use ros2_modular_edge_offloa.Common.Split.{cut_field, cut_last}
use ros2_modular_edge_offloa.Discovery.Protocol.{split_string}

pub record ComponentData : Type 0 where
  pub component_type : Bytes
  pub group_id : ℕ
  pub id_in_group : ℕ
  pub subtype : ℕ

unfoldable pub format_component_data : ComponentData → Bytes
format_component_data d =
    d.component_type
    ++ b':'
      ∷ (to_string d.group_id ++ b':' ∷ (to_string d.id_in_group ++ b':' ∷ to_string d.subtype))

-- The fourth part, or 0 for want of one.
subtype_of : List Bytes → Option ℤ
subtype_of parts = if ltb (length parts) 4 then some (pos 0) else stoi (get_or parts 3 [])

infixl 5 ◌>>=◌
abbrev ◌>>=◌ {ℓ κ} : {A : Type ℓ} {B : Type κ} → Option A → (A → Option B) → Option B
none >>= f = none
some a >>= f = f a

-- The three numbers, all 0 if one of the conversions throws.
numbers : List Bytes → Option (ℕ × ℕ × ℕ)
unfolding subtype_of
numbers parts = do
  group ← stoi (get_or parts 1 [])
  id ← stoi (get_or parts 2 [])
  subtype ← subtype_of parts
  some (u8 group, u8 id, u8 subtype)

abbrev zeros_or : Option (ℕ × ℕ × ℕ) → ℕ × ℕ × ℕ
zeros_or none = (0, 0, 0)
zeros_or (some n) = n

unfoldable pub parse_component_data : ComponentData → Bytes → ComponentData
unfolding numbers
parse_component_data data_before data_str =
    let parts = split_string data_str b':' in
    let n = zeros_or (numbers parts) in
    if ltb (length parts) 3 then data_before else record {
      component_type = get_or parts 0 [];
      group_id = n.0;
      id_in_group = n.1;
      subtype = n.2;
    }

split_string-format_component_data :
    (d : ComponentData)
    → Lacks b':' d.component_type
    → split_string (format_component_data d) b':'
      ≡ d.component_type ∷ to_string d.group_id ∷ to_string d.id_in_group ∷ to_string d.subtype ∷ []
unfolding format_component_data
split_string-format_component_data d h =
    let no_digit = λ (n : ℕ). to_string-Lacks b':' n (λ x. omega arith) in
    rw
      (
        cut_field b':' [] d.component_type
            (to_string d.group_id ++ b':' ∷ (to_string d.id_in_group ++ b':' ∷ to_string d.subtype))
            h,
        cut_field b':' [] (to_string d.group_id)
            (to_string d.id_in_group ++ b':' ∷ to_string d.subtype) (no_digit d.group_id),
        cut_field b':' [] (to_string d.id_in_group) (to_string d.subtype) (no_digit d.id_in_group),
        cut_last b':' (to_string d.subtype) (no_digit d.subtype) (to_string-ne-nil d.subtype),
      )
      refl

u8_small : (n : ℕ) → n < 256 → u8 (pos n) ≡ n
u8_small n h = omega arith

-- Whatever the fields were before, a formatted entry is read back, if its type contains no colon and its three
-- numbers are bytes.
pub parse_component_data-format_component_data :
    (data_before d : ComponentData)
    → Lacks b':' d.component_type
    → d.group_id < 256
    → d.id_in_group < 256
    → d.subtype < 256
    → parse_component_data data_before (format_component_data d) ≡ d
unfolding parse_component_data numbers subtype_of
parse_component_data-format_component_data data_before d h hg hi hs =
    rw
      (
        split_string-format_component_data d h,
        stoi-to_string d.group_id (omega arith),
        stoi-to_string d.id_in_group (omega arith),
        stoi-to_string d.subtype (omega arith),
      )
      (rw (u8_small d.group_id hg, u8_small d.id_in_group hi, u8_small d.subtype hs) refl)
