-- ===== src/Core/Access.antt =====
-- Who may share a route (core/router.rs, `register_http_tunnel` and `register_tcp_tunnel`).
use rustunnel.Prelude.{ℕ, ◌≡◌, sym, ◌∙◌, ap, true, Option, none, some, arith}
use rustunnel.Prelude.Eq.{eq_iff, nat_eq, list_eq, option_eq, pair_eq}
use rustunnel.Prelude.Map.{Map, get, contains_key}
use rustunnel.Core.Types.{
  Text, Uuid, TunnelProtocol, TunnelGroup, TunnelInfo, Instant, GroupSpec, Returns, Returns-bind,
  Returns-ok, Returns-elim, Returns-if, ok, ok_or, no_ports_available, protocol_eq,
}
use rustunnel.Core.Router.{TunnelCore, check_session_limit}
use rustunnel.Core.Router.Register.{
  Fresh, pop_port, existing_protocol, may_join, upsert_http, http_info, choose_subdomain,
  register_http_tunnel, register_tcp_tunnel, register_tcp_grouped, register_tcp_first,
  register_tcp_join,
}
use rustunnel.Core.Members.{new_info}
use rustunnel.Core.Invariant.{HasSinglePorts}
use rustunnel.Core.Groups.{IsGrouped, carries}
use rustunnel.Core.Invariant.Registered.{popped_port}

-- What a registration needs to join a group.
abbrev pub MayJoin : TunnelProtocol → Option GroupSpec → TunnelGroup → Type 0
MayJoin p none existing = ⊥
MayJoin p (some spec) existing =
    (existing.key_hash ≡ some spec.key_hash) × (existing_protocol existing.members ≡ some p)

may_join-MayJoin :
    (sub : Text) (p : TunnelProtocol) (g : Option GroupSpec) (existing : TunnelGroup)
    {spec : GroupSpec}
    → may_join sub p g existing ≡ ok spec
    → MayJoin p g existing
unfolding may_join
may_join-MayJoin sub p none existing h = absurd (ground arith)
may_join-MayJoin sub p (some spec) existing h = (
  ground (arith, eq_iff existing.key_hash (some spec.key_hash)),
  ground (arith, eq_iff (existing_protocol existing.members) (some p)),
)

upsert_http-MayJoin :
    (sub : Text) (now : Instant) (info : TunnelInfo) (g : Option GroupSpec)
    (routes : Map Text TunnelGroup) (existing : TunnelGroup)
    → get sub routes ≡ some existing
    → Returns (λ _. MayJoin info.protocol g existing) (upsert_http sub now info g routes)
unfolding upsert_http
upsert_http-MayJoin sub now info g routes existing e =
    rw (e, upsert_http)
      (Returns-bind _ (may_join sub info.protocol g existing) _
        λ spec h. may_join-MayJoin sub info.protocol g existing h)

chosen : (sub : Text) (id : Uuid) {out : Text} → choose_subdomain (some sub) id ≡ ok out → sub ≡ out
unfolding choose_subdomain
chosen sub id h = ground arith

-- A subdomain that is taken is never taken over: an HTTP registration on it succeeds only with a
-- group whose key is the key of the group that is there, and for the protocol of its first member.
pub register_http_tunnel-MayJoin :
    (s : Uuid) (sub : Text) (p : TunnelProtocol) (g : Option GroupSpec) (f : Fresh) (c : TunnelCore)
    (existing : TunnelGroup) {r : TunnelCore × Uuid × Text}
    → get sub c.http_routes ≡ some existing
    → register_http_tunnel s (some sub) p g f c ≡ ok r
    → MayJoin p g existing
unfolding register_http_tunnel new_info
register_http_tunnel-MayJoin s sub p g f c existing e h =
    Returns-ok (λ _. MayJoin p g existing) (register_http_tunnel s (some sub) p g f c) h
      (Returns-bind _ (check_session_limit s c) _ λ x _.
        Returns-bind _ (choose_subdomain (some sub) f.label_id) _ λ out q.
          let here : get out c.http_routes ≡ some existing =
            ap (λ n. get n c.http_routes) (sym (chosen sub f.label_id q)) ∙ e in
          Returns-bind _ (upsert_http out f.now (http_info s out p f c) g c.http_routes) _
            λ routes done.
              Returns-ok (λ _. MayJoin p g existing)
                (upsert_http out f.now (http_info s out p f c) g c.http_routes) done
                (upsert_http-MayJoin out f.now (http_info s out p f c) g c.http_routes existing
                  here))

-- A group on a port has the name and the key of a spec.
abbrev Shares : GroupSpec → ℕ → TunnelCore → Type 0
Shares spec port c =
    (existing : TunnelGroup)
    → get port c.tcp_routes ≡ some existing
    → (existing.name ≡ spec.group_name) × (existing.key_hash ≡ some spec.key_hash)

indexed-Shares :
    (spec : GroupSpec) (port : ℕ) (c : TunnelCore)
    → IsGrouped c
    → get (spec.group_name, spec.key_hash) c.tcp_group_index ≡ some port
    → Shares spec port c
indexed-Shares spec port c v e existing there =
    let same : carries spec.group_name spec.key_hash (some existing) ≡ true = ground (
      arith,
      v.at spec.group_name spec.key_hash port,
      ap (carries spec.group_name spec.key_hash) there,
    ) in
    (
      ground (arith, eq_iff existing.name spec.group_name),
      ground (arith, eq_iff existing.key_hash (some spec.key_hash)),
    )

free-Shares :
    (spec : GroupSpec) (port : ℕ) (c : TunnelCore)
    → get port c.tcp_routes ≡ none
    → Shares spec port c
free-Shares spec port c free existing there = absurd (ground (arith))

register_tcp_grouped-Shares :
    (s : Uuid) (spec : GroupSpec) (f : Fresh) (c : TunnelCore)
    → HasSinglePorts c
    → IsGrouped c
    → Returns (λ r. Shares spec r.2 c) (register_tcp_grouped s spec f c)
unfolding register_tcp_grouped register_tcp_first register_tcp_join
register_tcp_grouped-Shares s spec f c u v =
    Returns-elim _ (get (spec.group_name, spec.key_hash) c.tcp_group_index) _ _
      (λ new.
        Returns-bind _ (ok_or (pop_port c.available_tcp_ports) no_ports_available) _
          λ (port, rest) e. free-Shares spec port c (popped_port c port rest _ u e))
      (λ port found.
        Returns-if _ (contains_key port c.tcp_routes) _ _
          (λ there. indexed-Shares spec port c v found) (λ gone. tt))

-- A TCP registration of a group succeeds on a port that is taken only if the group there has its
-- name and its key, where ports are single and the index of groups is right.
pub register_tcp_tunnel-shares :
    (s : Uuid) (spec : GroupSpec) (f : Fresh) (c c' : TunnelCore) (t : Uuid) (port : ℕ)
    (existing : TunnelGroup)
    → HasSinglePorts c
    → IsGrouped c
    → register_tcp_tunnel s (some spec) f c ≡ ok (c', t, port)
    → get port c.tcp_routes ≡ some existing
    → (existing.name ≡ spec.group_name) × (existing.key_hash ≡ some spec.key_hash)
unfolding register_tcp_tunnel
register_tcp_tunnel-shares s spec f c c' t port existing u v h e =
    Returns-ok (λ r. Shares spec r.2 c) (register_tcp_tunnel s (some spec) f c) h
      (Returns-bind _ (check_session_limit s c) _ λ x _. register_tcp_grouped-Shares s spec f c u v)
      existing e
