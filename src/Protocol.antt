-- ===== src/Protocol.antt =====
-- crates/rustunnel-protocol/src/frame.rs: the frames of the control connection. Their JSON is made
-- by serde and is not modelled. A message that the server prints from an `Error` is that error.
use rustunnel.Prelude.{ℕ, Bool, Option, List}
use rustunnel.Core.Types.{Text, Uuid, TunnelProtocol, HealthCheckSpec, Error}

pub data Message : Type 0 where
  text : Text → Message
  error : Error → Message

pub record RegisterTunnel : Type 0 where
  pub request_id : Text
  pub protocol : TunnelProtocol
  pub subdomain : Option Text
  pub local_addr : Text
  pub p2p_secret_hash : Option Text
  pub p2p_name : Option Text
  pub group : Option Text
  pub group_key_hash : Option Text
  pub health_check : Option HealthCheckSpec
  pub client_surface : Option Text

pub record TunnelRegistered : Type 0 where
  pub request_id : Text
  pub tunnel_id : Uuid
  pub public_url : Text
  pub assigned_port : Option ℕ
  pub p2p_tunnel_name : Option Text
  pub notice : Option Text

pub data ControlFrame : Type 0 where
  auth : (token client_version : Text) → ControlFrame
  auth_ok : (session_id : Uuid) (server_version : Text) → ControlFrame
  auth_error : (message : Text) → ControlFrame
  register_tunnel : RegisterTunnel → ControlFrame
  tunnel_registered : TunnelRegistered → ControlFrame
  tunnel_error : (request_id : Text) (message : Message) → ControlFrame
  unregister_tunnel : (tunnel_id : Uuid) → ControlFrame
  new_connection : (conn_id : Uuid) (client_addr : Text) (protocol : TunnelProtocol) → ControlFrame
  data_stream_open : (conn_id : Uuid) → ControlFrame
  ping pong : (timestamp : ℕ) → ControlFrame
  tunnel_healthy : (tunnel_id : Uuid) → ControlFrame
  tunnel_unhealthy : (tunnel_id : Uuid) (reason : Text) → ControlFrame
  p2p_connect : (request_id target_tunnel_name secret_hash : Text) → ControlFrame
  p2p_connected : (request_id : Text) (conn_id : Uuid) → ControlFrame
  p2p_error : (request_id message : Text) → ControlFrame
  p2p_nat_info :
      (tunnel_id : Uuid) (nat_type : Text) (mapped_addrs local_addrs : List Text) → ControlFrame
  p2p_punch_instructions :
      (conn_id : Uuid) (peer_addrs : List Text) (strategy : Text) (punch_timeout_ms : ℕ)
      → ControlFrame
  p2p_punch_result : (conn_id : Uuid) (success : Bool) (direct_addr : Option Text) → ControlFrame
  p2p_metrics : (tunnel_id : Uuid) (bytes_sent bytes_received : ℕ) → ControlFrame
