-- ===== src/Discovery/Service.antt =====
-- DiscoveryService/src/discovery_service.cpp: the state of the service, its registry of components, and what its
-- handlers send. A tick of the clock is a nanosecond. What the transport does on a call is not part of it:
-- the calls made on it are listed in order. `Blank` is what the constructor of a RegistrationResponse leaves
-- in the two fields that it does not set.
pub mod Registration
pub mod Events
mod Tests
use ros2_modular_edge_offloa.Common.{ℕ, Bool, Option, none, some, List, Bytes, codes}
use ros2_modular_edge_offloa.Common.Eq.{nat_eq}
use ros2_modular_edge_offloa.Common.Maps.{find}
use ros2_modular_edge_offloa.Discovery.Protocol.{
  ResponseCode, RegistrationRequest, RegistrationResponse, Message,
}
use ros2_modular_edge_offloa.Discovery.Protocol.Encode.{encode_message}
use ros2_modular_edge_offloa.Discovery.Registry.{ComponentRegistry}

pub record DiscoveryService : Type 0 where
  pub p2p_mode : Bool
  pub registry : ComponentRegistry
  pub global_configuration : Option Bytes
  pub client_ip_addresses : List (ℕ × Bytes)
  pub last_purge_time : ℕ
  pub shutting_down : Bool

-- The calls on the transport.
pub data Effect : Type 0 where
  send_to : ℕ → Bytes → Effect
  disconnect_client : ℕ → Effect
  disconnect : Effect

-- encode_message and sendResponse
unfoldable pub send_response : ℕ → Message → Effect
send_response client_id message = send_to client_id (encode_message message)

pub record Blank : Type 0 where
  pub response_code : ResponseCode
  pub connection_target_id : ℕ

abbrev pub new_response : Blank → RegistrationRequest → RegistrationResponse
new_response blank req = record {
  response_code = blank.response_code;
  assigned_group_id = req.group_id;
  assigned_id_in_group = req.id_in_group;
  connection_target_type = codes "";
  connection_target_address = codes "";
  connection_target_port = codes "";
  connection_target_id = blank.connection_target_id;
  config_json = codes "";
  detected_client_address = codes "";
  human_readable_message = codes "";
}

-- The response code and the text that goes with it.
abbrev pub answer : RegistrationResponse → ResponseCode → Bytes → RegistrationResponse
answer resp code text = record resp { response_code = code; human_readable_message = text }

-- The address that the transport reported, if it did, or `otherwise`.
abbrev pub address_or : Bytes → Option Bytes → Bytes
address_or otherwise none = otherwise
address_or otherwise (some ip) = ip

abbrev pub detected : DiscoveryService → ℕ → Bytes → Bytes
detected s client_id otherwise = address_or otherwise (find client_id s.client_ip_addresses)
