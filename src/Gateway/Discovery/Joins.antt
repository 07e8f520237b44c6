-- ===== src/Gateway/Discovery/Joins.antt =====
-- The registration of a gateway at the discovery service, from its request to its callback.
use ros2_modular_edge_offloa.Common.{◌<◌, Lacks}
use ros2_modular_edge_offloa.Common.Decimal.{IsInt}
use ros2_modular_edge_offloa.Gateway.Discovery.{DiscoveryClient}

-- A client whose request the service reads as it was meant.
pub record IsSendable (c : DiscoveryClient) : Type 0 where
  pub group : c.group_id < 256
  pub id : c.id_in_group < 256
  pub name : Lacks b';' c.component_name
  pub data_plane_port : IsInt c.data_plane_port
