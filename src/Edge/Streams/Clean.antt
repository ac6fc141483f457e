-- ===== src/Edge/Streams/Clean.antt =====
-- What the steps of an edge leave behind them: the tunnels, the permits and the pending connection.
use rustunnel.Prelude.{ℕ, ◌≡◌, ◌≢◌, refl, ◌∙◌, ap, none}
use rustunnel.Prelude.Eq.{nat_eq, eq_refl}
use rustunnel.Prelude.Map.{get, get-remove}
use rustunnel.Core.Types.{Uuid, TunnelInfo, GroupMember, TunnelGroup}
use rustunnel.Core.Members.{add_transfer}
use rustunnel.Core.Router.{TunnelCore, TunnelKey, register_pending_conn, cancel_pending_conn}
use rustunnel.Core.Router.Health.{change_group, on_member}
use rustunnel.Core.Router.Dispatch.{resolve, count_request}
use rustunnel.Core.Valid.Gentle.{
  IsQuiet, stays-IsQuiet, chain-IsQuiet, change_group-IsQuiet, on_member-IsGentle,
}
use rustunnel.Core.Valid.Reports.{resolve-IsQuiet}
use rustunnel.Control.Handle.Quiet.{register_pending_conn-IsQuiet, cancel_pending_conn-IsQuiet}
use rustunnel.Edge.Streams.{
  timed_out, Outside, available, taken, given, take_permit, give_permit, metered, meter_add,
}
use rustunnel.Edge.Streams.Permits.{
  KeepsPermits, stays-KeepsPermits, chain-KeepsPermits, meter_add-KeepsPermits,
  register_pending_conn-KeepsPermits, cancel_pending_conn-KeepsPermits, resolve-KeepsPermits,
  permit_recovered, on_resolve,
}

abbrev pub IsPending : Uuid → TunnelCore → Type 0
IsPending id c = get id c.pending_conns ≢ none

abbrev pub NotPending : Uuid → TunnelCore → Type 0
NotPending id c = get id c.pending_conns ≡ none

-- The owners of tunnels, the validity of the state and the permits are kept, and the connection is
-- not left pending.
pub record IsClean (id : Uuid) (c d : TunnelCore) : Type 0 where
  pub quiet : IsQuiet c d
  pub permits : KeepsPermits c d
  pub waits : NotPending id c → NotPending id d

-- What the other tasks are taken to do while a connection waits and is served: they keep the same,
-- and a wait that ends by a stream, or by a sender that is dropped, ends with the entry taken out.
pub record IsFair (o : Outside) : Type 0 where
  pub quiet : (c : TunnelCore) → IsQuiet c (o.waiting c)
  pub permits : (c : TunnelCore) → KeepsPermits c (o.waiting c)
  pub settles : o.outcome ≢ timed_out → (c : TunnelCore) → NotPending o.conn_id (o.waiting c)
  pub serves : (c : TunnelCore) → IsClean o.conn_id c (o.serving c)

module _ (id : Uuid) where
  pub stays-IsClean : (c : TunnelCore) → IsClean id c c
  stays-IsClean c = record {
    quiet = stays-IsQuiet c;
    permits = stays-KeepsPermits c;
    waits = λ h. h;
  }

  pub chain-IsClean : {c d e : TunnelCore} → IsClean id c d → IsClean id d e → IsClean id c e
  chain-IsClean p q = record {
    quiet = chain-IsQuiet p.quiet q.quiet;
    permits = chain-KeepsPermits p.permits q.permits;
    waits = λ h. q.waits (p.waits h);
  }

change_group-pending :
    (k : TunnelKey) (f : TunnelGroup → TunnelGroup) (c : TunnelCore)
    → (change_group k f c).pending_conns ≡ c.pending_conns
change_group-pending (TunnelKey.http a) f c = refl
change_group-pending (TunnelKey.tcp a) f c = refl
change_group-pending (TunnelKey.udp a) f c = refl
change_group-pending (TunnelKey.p2p a) f c = refl

pub take_permit-pending :
    (k : TunnelKey) (t : Uuid) (c : TunnelCore)
    → (take_permit k t c).pending_conns ≡ c.pending_conns
unfolding take_permit
take_permit-pending k t c = change_group-pending k (on_member t taken) c

pub give_permit-pending :
    (k : TunnelKey) (t : Uuid) (c : TunnelCore)
    → (give_permit k t c).pending_conns ≡ c.pending_conns
unfolding give_permit
give_permit-pending k t c = change_group-pending k (on_member t given) c

member-IsQuiet :
    (k : TunnelKey) (t : Uuid) (f : GroupMember → GroupMember) (c : TunnelCore)
    → ((m : GroupMember) → (f m).info.session_id ≡ m.info.session_id)
    → IsQuiet c (change_group k (on_member t f) c)
member-IsQuiet k t f c h = change_group-IsQuiet (on_member t f) k c (on_member-IsGentle t f h)

pub meter_add-IsClean :
    (id : Uuid) (k : TunnelKey) (t : Uuid) (i o : ℕ) (c : TunnelCore)
    → IsClean id c (meter_add k t i o c)
unfolding meter_add add_transfer
meter_add-IsClean id k t i o c = record {
  quiet = member-IsQuiet k t (metered i o) c (λ m. refl);
  permits = meter_add-KeepsPermits k t i o c;
  waits = λ h. ap (get id) (change_group-pending k (on_member t (metered i o)) c) ∙ h;
}

resolve-pending :
    (pick : ℕ) (k : TunnelKey) (c : TunnelCore)
    → (resolve pick k c).0.pending_conns ≡ c.pending_conns
resolve-pending pick k c =
    on_resolve (λ d. d.pending_conns ≡ c.pending_conns) pick k c refl
      λ t. change_group-pending k (on_member t count_request) c

pub resolve-IsClean :
    (id : Uuid) (pick : ℕ) (k : TunnelKey) (c : TunnelCore) → IsClean id c (resolve pick k c).0
resolve-IsClean id pick k c = record {
  quiet = resolve-IsQuiet pick k c;
  permits = resolve-KeepsPermits pick k c;
  waits = λ h. ap (get id) (resolve-pending pick k c) ∙ h;
}

-- Another's steps with a connection pending, and then the entry taken out.
pub cancelled-IsClean :
    (id : Uuid) (tx : ℕ) (c d : TunnelCore)
    → IsQuiet (register_pending_conn id tx c) d
    → KeepsPermits (register_pending_conn id tx c) d
    → IsClean id c (cancel_pending_conn id d)
unfolding cancel_pending_conn
cancelled-IsClean id tx c d q p = record {
  quiet =
      chain-IsQuiet (register_pending_conn-IsQuiet id tx c)
        (chain-IsQuiet q (cancel_pending_conn-IsQuiet id d));
  permits =
      chain-KeepsPermits (register_pending_conn-KeepsPermits id tx c)
        (chain-KeepsPermits p (cancel_pending_conn-KeepsPermits id d));
  waits = λ h. get-remove id id d.pending_conns ∙ rw (eq_refl id) refl;
}

-- A wait that ends with the entry taken out by another.
pub settled-IsClean :
    (o : Outside) (c : TunnelCore)
    → IsFair o
    → o.outcome ≢ timed_out
    → IsClean o.conn_id c (o.waiting (register_pending_conn o.conn_id o.stream_tx c))
settled-IsClean o c fair ends = record {
  quiet = chain-IsQuiet (register_pending_conn-IsQuiet o.conn_id o.stream_tx c) (fair.quiet _);
  permits =
      chain-KeepsPermits (register_pending_conn-KeepsPermits o.conn_id o.stream_tx c)
        (fair.permits _);
  waits = λ h. fair.settles ends _;
}

-- A permit that is held over a clean stretch and given back.
pub permit-IsClean :
    (id : Uuid) (k : TunnelKey) (info : TunnelInfo) (c d : TunnelCore)
    → available k info c ≢ 0
    → IsClean id (take_permit k info.tunnel_id c) d
    → IsClean id c (give_permit k info.tunnel_id d)
unfolding take_permit give_permit
permit-IsClean id k info c d left h = record {
  quiet =
      chain-IsQuiet (member-IsQuiet k info.tunnel_id taken c (λ m. refl))
        (chain-IsQuiet h.quiet (member-IsQuiet k info.tunnel_id given d (λ m. refl)));
  permits = permit_recovered k info c d left h.permits;
  waits = λ n.
      ap (get id) (give_permit-pending k info.tunnel_id d)
      ∙ h.waits (ap (get id) (take_permit-pending k info.tunnel_id c) ∙ n);
}
