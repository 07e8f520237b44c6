-- ===== src/Lib.antt =====
-- A verification library for the C++ parts of the offloading system: gateways of vehicles (VHC) and of
-- edge hosts (MEC) exchange ROS messages through a bridge, and a discovery service tells the
-- components where the others are.
--
-- A gateway writes each message as a frame: a header of eleven bytes, the topic, the payload. The
-- bridge has a transport handler per gateway, which cuts the bytes it receives into frames and puts
-- each frame into the queues that the routing table names for the sender and the message type. The
-- session manager keeps the offloading sessions, whose message types come from the global
-- configuration. All components register with the discovery service by text messages; it keeps them in
-- a registry and gives a gateway a bridge to connect to.
--
-- Wire models the header: message_header.hpp of
-- ros/src/ros_ws/src/modular_gateway_sender/include/modular_gateway_sender (create_header,
-- create_header_in_buffer, MessageOptions) in Wire and Wire.Flags, bridge/src/common_types.hpp
-- (parse_message_header, construct_routing_key) in Wire.Parse; Wire.RoundTrip joins the two.
--
-- Bridge.Routing models bridge/src/RoutingTable.cpp; Bridge.Transport models
-- bridge/src/TransportHandler.cpp, its receive buffer (handle_incoming_data, split into
-- handle_incoming_data, after_receive, process_buffer, drain and route) and its outgoing queue,
-- Bridge.Transport.Loop its thread (run_internal, split into iterate, reconnect, exchange and finish;
-- attempt_connection); Bridge.Config models bridge/src/GlobalConfig.cpp, Bridge.Sessions
-- bridge/src/SessionManager.cpp.
--
-- Bridge.Connection models bridge/src/MGWCPConnection.cpp, the control-plane connection of one
-- gateway: its state and the messages that it repeats until they are acknowledged, Handlers its
-- handlers of received messages, Thread its thread, start and stop. Bridge.Control models
-- bridge/src/BridgeControlPlane.cpp: its state, the transport handlers and the routing rules of a
-- session; Approval what it does with the offloading manager's messages; Startup its start phases, the
-- registration with the discovery service and its end; Gateways the gateways' connections, where the
-- callbacks that a connection calls are the control plane's own functions. A message of a gateway is
-- handled by its connection, which gives its calls as effects; the control plane then performs them in
-- order. Both read JSON through the interface Bridge.Json.
--
-- Discovery.Protocol models cpplib/discovery_protocol (the messages, Encode its encoders, Codec its
-- decoders, Component the entries of a component list), Discovery.Registry
-- DiscoveryService/src/component_registry.cpp, and Discovery.Service
-- DiscoveryService/src/discovery_service.cpp (Registration its handleRegistration, split into the
-- phases that end in a reply or go on, Events the other handlers, with the purge of stale clients).
--
-- Gateway.Client models ros/src/ros_ws/src/modular_gateway_sender/src/bridge_cp_client.cpp, the other
-- end of the control-plane connection (Messages its handlers and thread), Gateway.Discovery
-- discovery_client.cpp of the same directory, the registration with the discovery service (Joins puts
-- the two together), and Gateway.Ros ros_gateway.cpp, the data plane of a gateway;
-- Bridge.Transport.Reads follows a run of reads, and Gateway.Ros.Relay joins two gateways and the
-- bridge's data plane.
--
-- Bytes and machine words are natural numbers with their bounds or wrap-around written out; texts and
-- buffers are lists of bytes; maps are association lists in the order of insertion; time is a number
-- of ticks that a call takes as an argument. Queues, JSON documents and the clock belong to other
-- libraries, and the TCP library of cpplib/transport is not modelled: what their calls return is an
-- argument, and the calls made on them are listed in order as actions. Logging and sleeps leave no
-- trace. A function that a lock protects is one step, and a stop of another thread is seen between two
-- calls.
--
-- The loop over the receive buffer runs on fuel, one more than the buffer has bytes; each round takes
-- a header of at least eleven bytes off, and process_buffer leaves no complete message behind. Decimal
-- print runs on one more than the number. The other loops are structural.
--
-- Not modelled: the set-up of the discovery service, the threads that the bridge's control plane only
-- starts and joins, the TCP library but receive_exact, the gateway's controller, logging, and the
-- Python programs.
pub mod Common
pub mod Wire
pub mod Bridge
pub mod Gateway
pub mod Discovery
