-- ===== src/Bridge/Json.antt =====
-- nlohmann::json, as the control plane of the bridge uses it: the calls are the fields of a record, and a
-- message is a value of a type `Value` that is not looked into. A conversion that throws gives none.
use Prim.Native.String.{String}
use ros2_modular_edge_offloa.Common.{ℕ, Bool, Option, Bytes}
use ros2_modular_edge_offloa.Common.Int.{ℤ}

pub record JsonAccess (Value : Type 0) : Type 0 where
  -- json::parse
  pub parse : Bytes → Option Value
  -- contains, which says false of a value that is no object
  pub contains : Value → String → Bool
  -- operator[] of a constant object at a key that it contains
  pub at_key : Value → String → Value
  -- get<std::string>, get<int>, get<uint32_t>, get<uint64_t>, get<long long>
  pub get_text : Value → Option Bytes
  pub get_int : Value → Option ℤ
  pub get_uint32 : Value → Option ℕ
  pub get_uint64 : Value → Option ℕ
  pub get_int64 : Value → Option ℤ
  -- is_string, is_number_integer
  pub is_string : Value → Bool
  pub is_integer : Value → Bool
  -- assignment of a text to a member
  pub set_text : Value → String → Bytes → Value
