-- ===== src/Core/Valid/Gentle.antt =====
-- Health reports, alerts and dispatches of core/router.rs write to members and groups, and leave the
-- owners of tunnels, the ports and the groups' names and keys alone.
use rustunnel.Prelude.{
  ◌≡◌, refl, ap, ◌∙◌, Bool, true, false, Option, none, some, List, arith, nat_beq, is_some,
}
use rustunnel.Prelude.Eq.{nat_eq, list_eq, pair_eq}
use rustunnel.Prelude.Map.{get, get-modify, apply_at}
use rustunnel.Core.Types.{Text, Uuid, TunnelGroup, GroupMember, GroupEvent}
use rustunnel.Core.Routes.{member_in}
use rustunnel.Core.Router.{TunnelCore, TunnelKey}
use rustunnel.Core.Router.Health.{change_group, on_member, rearm, alerted, send_group_event}
use rustunnel.Core.Invariant.{holder, owner_of, HasSinglePorts, KeepsOwners, KeepsOwners-IsCoherent}
use rustunnel.Core.Groups.{IsGrouped, carries}
use rustunnel.Core.Valid.{IsValid}

-- A write to a group that keeps its name, its key and the owners of its members.
pub record IsGentle (f : TunnelGroup → TunnelGroup) : Type 0 where
  pub owners :
      (g : TunnelGroup) (u : Uuid) → owner_of (get u (f g).members) ≡ owner_of (get u g.members)
  pub name : (g : TunnelGroup) → (f g).name ≡ g.name
  pub key : (g : TunnelGroup) → (f g).key_hash ≡ g.key_hash

owner_in-apply :
    (f : TunnelGroup → TunnelGroup) (u : Uuid) (b : Bool) (o : Option TunnelGroup)
    → IsGentle f
    → owner_of (member_in u (apply_at f b o)) ≡ owner_of (member_in u o)
owner_in-apply f u b none h = refl
owner_in-apply f u true (some g) h = h.owners g u
owner_in-apply f u false (some g) h = refl

carries-apply :
    (f : TunnelGroup → TunnelGroup) (n kh : Text) (b : Bool) (o : Option TunnelGroup)
    → IsGentle f
    → carries n kh (apply_at f b o) ≡ carries n kh o
carries-apply f n kh b none h = refl
carries-apply f n kh true (some g) h = ground (arith, h.name g, h.key g)
carries-apply f n kh false (some g) h = refl

is_some-apply :
    (f : TunnelGroup → TunnelGroup) (b : Bool) (o : Option TunnelGroup)
    → is_some (apply_at f b o) ≡ is_some o
is_some-apply f b none = refl
is_some-apply f true (some g) = refl
is_some-apply f false (some g) = refl

holder-change :
    (f : TunnelGroup → TunnelGroup) (k : TunnelKey) (c : TunnelCore)
    → IsGentle f
    → (j : TunnelKey) (u : Uuid) → holder (change_group k f c) j u ≡ holder c j u
holder-change f (TunnelKey.http s) c h (TunnelKey.http n) u = ground (
  arith,
  get-modify s n f c.http_routes,
  owner_in-apply f u (list_eq.same s n) (get n c.http_routes) h,
)
holder-change f (TunnelKey.http s) c h _ u = refl
holder-change f (TunnelKey.tcp p) c h (TunnelKey.tcp q) u =
    ground (
      arith,
      get-modify p q f c.tcp_routes,
      owner_in-apply f u (nat_beq p q) (get q c.tcp_routes) h,
    )
holder-change f (TunnelKey.tcp p) c h _ u = refl
holder-change f (TunnelKey.udp p) c h (TunnelKey.udp q) u =
    ground (
      arith,
      get-modify p q f c.udp_routes,
      owner_in-apply f u (nat_beq p q) (get q c.udp_routes) h,
    )
holder-change f (TunnelKey.udp p) c h _ u = refl
holder-change f (TunnelKey.p2p n) c h j u = refl

change_group-KeepsOwners :
    (f : TunnelGroup → TunnelGroup) (k : TunnelKey) (c : TunnelCore)
    → IsGentle f
    → KeepsOwners c (change_group k f c)
change_group-KeepsOwners f (TunnelKey.http s) c h = record {
  index = λ u. refl;
  holds = holder-change f (TunnelKey.http s) c h;
  listed = λ r u l. l;
}
change_group-KeepsOwners f (TunnelKey.tcp s) c h = record {
  index = λ u. refl;
  holds = holder-change f (TunnelKey.tcp s) c h;
  listed = λ r u l. l;
}
change_group-KeepsOwners f (TunnelKey.udp s) c h = record {
  index = λ u. refl;
  holds = holder-change f (TunnelKey.udp s) c h;
  listed = λ r u l. l;
}
change_group-KeepsOwners f (TunnelKey.p2p s) c h = record {
  index = λ u. refl;
  holds = holder-change f (TunnelKey.p2p s) c h;
  listed = λ r u l. l;
}

change_group-ports :
    (f : TunnelGroup → TunnelGroup) (k : TunnelKey) (c : TunnelCore)
    → HasSinglePorts c
    → HasSinglePorts (change_group k f c)
change_group-ports f (TunnelKey.tcp p) c v = record {
  tcp_single = λ q. ground (
    arith,
    v.tcp_single q,
    get-modify p q f c.tcp_routes,
    is_some-apply f (nat_beq p q) (get q c.tcp_routes),
  );
  udp_single = v.udp_single;
}
change_group-ports f (TunnelKey.udp p) c v = record {
  tcp_single = v.tcp_single;
  udp_single = λ q. ground (
    arith,
    v.udp_single q,
    get-modify p q f c.udp_routes,
    is_some-apply f (nat_beq p q) (get q c.udp_routes),
  );
}
change_group-ports f _ c v = record { tcp_single = v.tcp_single; udp_single = v.udp_single }

change_group-groups :
    (f : TunnelGroup → TunnelGroup) (k : TunnelKey) (c : TunnelCore)
    → IsGentle f
    → IsGrouped c
    → IsGrouped (change_group k f c)
change_group-groups f (TunnelKey.tcp p) c h v = record {
  at = λ n kh q. ground (
    arith,
    v.at n kh q,
    get-modify p q f c.tcp_routes,
    carries-apply f n kh (nat_beq p q) (get q c.tcp_routes) h,
  );
}
change_group-groups f _ c h v = record { at = v.at }

-- A step that keeps the owners of all tunnels, and a valid state valid.
pub record IsQuiet (c c' : TunnelCore) : Type 0 where
  pub owners : KeepsOwners c c'
  pub valid : IsValid c → IsValid c'

pub stays-IsQuiet : (c : TunnelCore) → IsQuiet c c
stays-IsQuiet c = record {
  owners = record { index = λ u. refl; holds = λ j u. refl; listed = λ r u l. l };
  valid = λ v. v;
}

pub chain-IsQuiet : {c d e : TunnelCore} → IsQuiet c d → IsQuiet d e → IsQuiet c e
chain-IsQuiet p q = record {
  owners = record {
    index = λ u. q.owners.index u ∙ p.owners.index u;
    holds = λ j u. q.owners.holds j u ∙ p.owners.holds j u;
    listed = λ r u l. q.owners.listed r u (p.owners.listed r u l);
  };
  valid = λ v. q.valid (p.valid v);
}

-- A step that keeps the owners, and writes to no port and no group.
pub owners-IsQuiet :
    (c c' : TunnelCore)
    → KeepsOwners c c'
    → (HasSinglePorts c → HasSinglePorts c')
    → (IsGrouped c → IsGrouped c')
    → IsQuiet c c'
owners-IsQuiet c c' k p g = record {
  owners = k;
  valid = λ v. record {
    coherent = KeepsOwners-IsCoherent c c' k v.coherent;
    ports = p v.ports;
    groups = g v.groups;
  };
}

pub change_group-IsQuiet :
    (f : TunnelGroup → TunnelGroup) (k : TunnelKey) (c : TunnelCore)
    → IsGentle f
    → IsQuiet c (change_group k f c)
change_group-IsQuiet f k c h =
    owners-IsQuiet c _ (change_group-KeepsOwners f k c h) (change_group-ports f k c)
      (change_group-groups f k c h)

-- A write to a member that keeps its session.
pub on_member-IsGentle :
    (t : Uuid) (f : GroupMember → GroupMember)
    → ((m : GroupMember) → (f m).info.session_id ≡ m.info.session_id)
    → IsGentle (on_member t f)
on_member-IsGentle t f h = record {
  owners = λ g u. ground (arith, get-modify t u f g.members, same (nat_beq t u) (get u g.members));
  name = λ g. refl;
  key = λ g. refl;
}
  where
    same : (b : Bool) (o : Option GroupMember) → owner_of (apply_at f b o) ≡ owner_of o
    same b none = refl
    same true (some m) = ap some (h m)
    same false (some m) = refl

pub rearm-IsGentle : IsGentle rearm
rearm-IsGentle = record { owners = λ g u. refl; name = λ g. refl; key = λ g. refl }

pub alerted-IsGentle : IsGentle alerted
alerted-IsGentle = record { owners = λ g u. refl; name = λ g. refl; key = λ g. refl }

holder-events :
    (es : List GroupEvent) (c : TunnelCore) (j : TunnelKey) (u : Uuid)
    → holder (record c { group_events = es }) j u ≡ holder c j u
holder-events es c (TunnelKey.http n) u = refl
holder-events es c (TunnelKey.tcp n) u = refl
holder-events es c (TunnelKey.udp n) u = refl
holder-events es c (TunnelKey.p2p n) u = refl

events-IsQuiet :
    (es : List GroupEvent) (c : TunnelCore) → IsQuiet c (record c { group_events = es })
events-IsQuiet es c =
    owners-IsQuiet c _
      (record { index = λ u. refl; holds = holder-events es c; listed = λ r u l. l })
      (λ v. record { tcp_single = v.tcp_single; udp_single = v.udp_single })
      (λ v. record { at = v.at })

pub send-IsQuiet : (o : Option GroupEvent) (c : TunnelCore) → IsQuiet c (send_group_event o c)
send-IsQuiet none c = stays-IsQuiet c
send-IsQuiet (some e) c = events-IsQuiet _ c
