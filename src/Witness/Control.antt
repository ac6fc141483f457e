-- ===== src/Witness/Control.antt =====
-- The properties of the control connection at concrete states: a server with two TCP ports, and a
-- client with the session 1.
use rustunnel.Prelude.{
  ◌≡◌, ◌≢◌, refl, true, false, Option, none, some, [], ◌∷◌, codes, is_some, arith,
}
use rustunnel.Prelude.Eq.{nat_eq, list_eq}
use rustunnel.Prelude.Map.{get, insert, modify, remove}
use rustunnel.Core.Types.{Text, Uuid, TunnelProtocol}
use rustunnel.Core.Members.{new_session}
use rustunnel.Core.Router.{
  TunnelCore, TunnelKey, port_stack, port_range, udp_port_range, new, register_session,
  add_tunnel_to_session, check_session_limit,
}
use rustunnel.Core.Router.Register.{register_tcp_tunnel, register_tcp_solo, open_tcp, index_tunnel}
use rustunnel.Core.Invariant.{holder}
use rustunnel.Core.Valid.{IsValid}
use rustunnel.Core.Valid.Steps.{reachable-IsValid}
use rustunnel.Limits.AuthFailure
use rustunnel.Limits.AuthFailure.{AuthFailureLimiter, is_limited}
use rustunnel.Protocol.{ControlFrame, RegisterTunnel}
use rustunnel.Control.Billing.{Plan, Queries, pos, gate_for_plan, evaluate_hobby_limits, used_under}
use rustunnel.Control.Billing.Gate.{evaluate-gate_for_plan}
use rustunnel.Control.Session.{Token, ServerConfig, SessionCtx, Outside, done}
use rustunnel.Control.Register.{register_tunnel}
use rustunnel.Control.Register.Heard.{Answered}
use rustunnel.Control.Register.Answers.{register_tunnel-Answered}
use rustunnel.Control.Handle.{handle_client_message, end_session}
use rustunnel.Control.Handle.Frames.{Spares, handle_client_message-Spares, end_session-releases}
use rustunnel.Control.Handle.Foreign.{handle_client_message-foreign, up}
use rustunnel.Control.Auth.{auth_handshake, Attempt, FirstMessage, frame}
use rustunnel.Control.Auth.Guard.{GuardsFirst, auth_handshake-Guards}
use rustunnel.Control.Heartbeat.{heartbeat_task}
use rustunnel.Control.Heartbeat.Rounds.{rounds, heartbeat_task-rounds}
use rustunnel.Control.Loop.{LoopEvent, message, loop_turn}
use rustunnel.Control.Server.{
  Uninterrupted, here, next, turns, routes, StaysUp, Uninterrupted-StaysUp,
}
use rustunnel.Core.Router.Dispatch.{resolve}
use rustunnel.Core.Members.{new_solo, healthy_with, new_info}
use rustunnel.Witness.States.{
  opened, fresh, client, with_tcp, with_tcp-Reach, opened-IsValid, fresh_tcp, fresh_http,
}

abbrev config : ServerConfig
config = record {
  domain = codes "example.com";
  region_id = codes "eu";
  require_auth = true;
  admin_token = codes "admin";
  p2p_enabled = true;
  load_balancing_enabled = true;
  alert_webhook_url = none;
  server_version = codes "0.9.0";
}

abbrev token : Text → Token
token status = record {
  id = codes "t1";
  status = status;
  unlimited = false;
  expires_at = none;
  user_id = none;
}

abbrev ctx : Uuid → Option Token → SessionCtx
ctx s t = record { session_id = s; config = config; db_token = t }

abbrev plan : Plan
plan = record {
  max_tunnels = some (pos 3);
  allow_custom_subdomains = true;
  bandwidth_limit_gb = some (pos 5);
  billing_model = codes "free";
}

abbrev queries : Queries
queries = record {
  active_plan = some (some plan);
  open_tunnels = some (pos 1);
  month_bytes = some (pos 5_000_000_000);
}

abbrev outside : Uuid → Outside
outside t = record {
  fresh = fresh t;
  utc_now = 50;
  conn_id = 70;
  sub_conn_id = 71;
  pub_stream_tx = 80;
  sub_stream_tx = 81;
  publisher_open = true;
  queries = queries;
}

abbrev asks : TunnelProtocol → RegisterTunnel
asks protocol = record {
  request_id = codes "r1";
  protocol = protocol;
  subdomain = some (codes "web");
  local_addr = codes "127.0.0.1:3000";
  p2p_secret_hash = none;
  p2p_name = none;
  group = none;
  group_key_hash = none;
  health_check = none;
  client_surface = none;
}

with_tcp-IsValid : IsValid with_tcp
with_tcp-IsValid = reachable-IsValid 20000 20001 0 0 5 100 with_tcp-Reach

handle_client_message-Spares_example :
    Spares
      (ControlFrame.register_tunnel (asks TunnelProtocol.http))
      with_tcp
      (handle_client_message
        (ctx 1 none)
        (ControlFrame.register_tunnel (asks TunnelProtocol.http))
        (outside 3)
        with_tcp).core
handle_client_message-Spares_example =
    handle_client_message-Spares (ctx 1 none)
      (ControlFrame.register_tunnel (asks TunnelProtocol.http)) (outside 3) with_tcp fresh_http
      with_tcp-IsValid

register_tunnel-Answered_example :
    Answered 1
      (asks TunnelProtocol.tcp)
      (fresh 2)
      opened
      (register_tunnel (ctx 1 none) (asks TunnelProtocol.tcp) (outside 2) opened)
register_tunnel-Answered_example =
    register_tunnel-Answered (ctx 1 none) (asks TunnelProtocol.tcp) (outside 2) opened fresh_tcp
      opened-IsValid

end_session-releases_example : holder (end_session 1 with_tcp).0 (TunnelKey.tcp 20001) 2 ≢ some 1
end_session-releases_example =
    end_session-releases 1 with_tcp (TunnelKey.tcp 20001) 2 with_tcp-IsValid

no_session : get 2 with_tcp.sessions ≡ none
unfolding get insert modify remove new port_range udp_port_range port_stack register_session
    register_tcp_tunnel register_tcp_solo open_tcp index_tunnel add_tunnel_to_session new_session
    check_session_limit
no_session = refl

not_held : (k : TunnelKey) → holder with_tcp k 2 ≢ some 2
not_held k h = ground (arith, with_tcp-IsValid.coherent.owned k 2 2 h, no_session)

handle_client_message-foreign_example :
    handle_client_message (ctx 2 none) (ControlFrame.tunnel_healthy 2) (outside 3) with_tcp
    ≡ done with_tcp []
handle_client_message-foreign_example =
    handle_client_message-foreign (ctx 2 none) (ControlFrame.tunnel_healthy 2) (outside 3) with_tcp
      2 up with_tcp-IsValid not_held

abbrev attempt : Attempt
attempt = record {
  peer = client;
  asked_at = 100;
  failed_at = 110;
  swept_at = 120;
  registered_at = 130;
  session_id = 4;
  control_tx = 14;
  verified = some none;
}

abbrev limiter : AuthFailureLimiter
limiter = AuthFailure.new 5

-- A wrong token in the first frame.
abbrev wrong : FirstMessage
wrong = frame (ControlFrame.auth (codes "wrong") (codes "0.9.0"))

auth_handshake-Guards_example :
    GuardsFirst
      (λ s. s)
      config
      attempt
      opened
      limiter
      (auth_handshake (λ s. s) config attempt wrong opened limiter)
      (some (codes "wrong"))
auth_handshake-Guards_example = auth_handshake-Guards (λ s. s) config attempt wrong opened limiter

heartbeat_task-rounds_example :
    is_some (heartbeat_task none (rounds 0 (1 ∷ 2 ∷ 0 ∷ 1 ∷ []))) ≡ false
heartbeat_task-rounds_example = heartbeat_task-rounds 0 (1 ∷ 2 ∷ 0 ∷ 1 ∷ [])

evaluate-gate_for_plan_example :
    evaluate_hobby_limits queries (some (codes "web"))
    ≡ some (
        gate_for_plan plan
          (pos 1)
          (some (codes "web"))
          (used_under (some (pos 5)) (some (pos 5_000_000_000))))
evaluate-gate_for_plan_example =
    evaluate-gate_for_plan queries plan (some (codes "web")) (pos 1) refl refl

with_tcp-held : holder with_tcp (TunnelKey.tcp 20001) 2 ≡ some 1
unfolding get insert modify remove new port_range udp_port_range port_stack register_session
    register_tcp_tunnel register_tcp_solo open_tcp index_tunnel add_tunnel_to_session new_session
    check_session_limit new_solo healthy_with new_info
with_tcp-held = refl

abbrev meddling : SessionCtx
meddling = ctx 2 none

abbrev claim : LoopEvent
claim = message (some (ControlFrame.tunnel_unhealthy 2 (codes "down")))

abbrev after_claim : TunnelCore
after_claim = (loop_turn (λ a. codes "10.0.0.1") meddling claim (outside 3) with_tcp).core

run : Uninterrupted 2 with_tcp (resolve 0 (TunnelKey.tcp 20001) after_claim).0
run =
    next
      (next here (turns (λ a. codes "10.0.0.1") meddling claim (outside 3) with_tcp fresh_http)
        refl)
      (routes 0 (TunnelKey.tcp 20001) after_claim) refl

Uninterrupted-StaysUp_example :
    StaysUp (TunnelKey.tcp 20001) 2 1 (resolve 0 (TunnelKey.tcp 20001) after_claim).0
Uninterrupted-StaysUp_example =
    Uninterrupted-StaysUp (TunnelKey.tcp 20001) 2 1 with_tcp _ run
      (record { valid = with_tcp-IsValid; up = with_tcp-held })
