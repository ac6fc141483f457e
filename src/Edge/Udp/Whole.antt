-- ===== src/Edge/Udp/Whole.antt =====
-- A session of a UDP tunnel (edge/udp.rs) over a stream that comes in pieces.
use rustunnel.Prelude.{
  ◌+◌, ◌%◌, ◌≤◌, ◌≡◌, refl, ap, sym, ◌∙◌, Bool, true, false, List, [], ◌∷◌, ◌++◌, map, arith,
  length, if◌then◌else◌,
}
use mathlib.Core.List.{append_assoc, append-nil}
use mathlib.Core.Path.{subst}
use rustunnel.Core.Types.{Text}
use rustunnel.Core.Members.{u64_mod}
use rustunnel.Edge.Udp.{
  max_datagram_size, frame, short, read_framed_datagram, Ended, waits, fails, read_frames, Turn,
  inbound, arrived, Bridge, new_bridge, send_all, received, on_turn, bridge,
}
use rustunnel.Edge.Udp.Framing.{read-frame}
use rustunnel.Edge.Udp.Framing.Reads.{Reads, stop, refuse, step, read_frames-Reads, read-Continues}

-- Bytes can be read in one way only.
Reads-unique :
    {s : Text} {ds ds' : List Text} {e e' : Ended}
    → Reads s ds e
    → Reads s ds' e'
    → (ds ≡ ds') × (e ≡ e')
Reads-unique (stop s h) (stop _ k) = (refl, refl)
Reads-unique (stop s h) (refuse _ k) = absurd (ground arith)
Reads-unique (stop s h) (step _ d r ds e k rest) = absurd (ground arith)
Reads-unique (refuse s h) (stop _ k) = absurd (ground arith)
Reads-unique (refuse s h) (refuse _ k) = (refl, refl)
Reads-unique (refuse s h) (step _ d r ds e k rest) = absurd (ground arith)
Reads-unique (step s d r ds e h rest) (stop _ k) = absurd (ground arith)
Reads-unique (step s d r ds e h rest) (refuse _ k) = absurd (ground arith)
Reads-unique (step s d r ds e h rest) (step _ d' r' ds' e' k rest') =
    let same : r ≡ r' = ground arith in
    let (p, q) = Reads-unique (subst (λ (u : Text). Reads u ds e) same rest) rest' in
    (ground arith, q)

-- More bytes are read on from what the last read has taken.
Reads-append :
    {a : Text} {ds : List Text} {e : Ended} (b u : Text) (ds' : List Text) (e' : Ended)
    → Reads a ds e
    → e ≡ waits u
    → Reads (u ++ b) ds' e'
    → Reads (a ++ b) (ds ++ ds') e'
Reads-append b u ds' e' (stop s h) w more =
    subst (λ (x : Text). Reads (x ++ b) ds' e') (ground arith) more
Reads-append b u ds' e' (refuse s h) w more = absurd (ground arith)
Reads-append b u ds' e' (step s d r ds e h rest) w more =
    step (s ++ b) d (r ++ b) (ds ++ ds') e' (rw h at (read-Continues s b)).0
      (Reads-append b u ds' e' rest w more)

-- A stream that is refused stays refused.
Reads-refused :
    {a : Text} {ds : List Text} {e : Ended} (b : Text)
    → Reads a ds e
    → e ≡ fails
    → Reads (a ++ b) ds fails
Reads-refused b (stop s h) w = absurd (ground arith)
Reads-refused b (refuse s h) w = refuse (s ++ b) (rw h at (read-Continues s b))
Reads-refused b (step s d r ds e h rest) w =
    step (s ++ b) d (r ++ b) ds fails (rw h at (read-Continues s b)).0 (Reads-refused b rest w)

-- The frames of some datagrams.
unfoldable pub frames : List Text → Text
frames [] = []
frames (d ∷ ds) = frame d ++ frames ds

abbrev pub AllFit : List Text → Type 0
AllFit [] = Unit
AllFit (d ∷ ds) = (length d ≤ max_datagram_size) × AllFit ds

frames-Reads : (ds : List Text) → AllFit ds → Reads (frames ds) ds (waits [])
unfolding frames read_framed_datagram
frames-Reads [] h = stop [] refl
frames-Reads (d ∷ ds) (fits, h) =
    step (frame d ++ frames ds) d (frames ds) ds (waits []) (read-frame d (frames ds) fits)
      (frames-Reads ds h)

unfoldable pub concat : List Text → Text
concat [] = []
concat (p ∷ ps) = p ++ concat ps

-- All datagrams can be sent to the peer.
abbrev pub AllSent : (Text → Bool) → List Text → Type 0
AllSent sendable [] = Unit
AllSent sendable (d ∷ ds) = (sendable d ≡ true) × AllSent sendable ds

AllSent-split :
    (sendable : Text → Bool) (ds ds' : List Text)
    → AllSent sendable (ds ++ ds')
    → AllSent sendable ds × AllSent sendable ds'
AllSent-split sendable [] ds' h = (tt, h)
AllSent-split sendable (d ∷ ds) ds' (e, h) =
    let (p, q) = AllSent-split sendable ds ds' h in ((e, p), q)

module _ (sendable : Text → Bool) where
  send_all-sent :
      (ds : List Text) (b : Bridge)
      → AllSent sendable ds
      → ((send_all sendable ds b).to_peer ≡ b.to_peer ++ ds)
        × ((send_all sendable ds b).running ≡ b.running)
  unfolding send_all
  send_all-sent [] b h = (sym (append-nil b.to_peer), refl)
  send_all-sent (d ∷ ds) b (e, h) =
      let next : Bridge = record b {
        to_peer = b.to_peer ++ d ∷ [];
        bytes_out = (b.bytes_out + length d) % u64_mod;
      } in
      let (sent, up) = send_all-sent ds next h in
      rw (e, send_all) (sent ∙ append_assoc b.to_peer (d ∷ []) ds, up)

-- The bytes that a read waits with hold no whole frame.
Reads-stalled :
    {s u : Text} {ds : List Text} {e : Ended}
    → Reads s ds e
    → e ≡ waits u
    → read_framed_datagram u ≡ short
Reads-stalled (stop s h) w = subst (λ (x : Text). read_framed_datagram x ≡ short) (ground arith) h
Reads-stalled (refuse s h) w = absurd (ground arith)
Reads-stalled (step s d r ds e h rest) w = Reads-stalled rest w

on_true : (t : Bool) (x y : Bridge) → t ≡ true → (if t then x else y) ≡ x
on_true true x y e = refl
on_true false x y e = cc

-- The peer has got these datagrams, and no bytes are left over.
abbrev pub HasSent : Bridge → List Text → Type 0
HasSent b ds = (b.to_peer ≡ ds) × (b.partial ≡ []) × (b.running ≡ true)

module _ (sendable : Text → Bool) where
  piece_sent :
      (p : Text) (ps : List Text) (b : Bridge) (ds : List Text) (x : List Text × Ended)
      → read_frames (b.partial ++ p) ≡ x
      → b.running ≡ true
      → Reads (b.partial ++ concat (p ∷ ps)) ds (waits [])
      → AllSent sendable ds
      → ((b' : Bridge) (ds' : List Text)
          → b'.running ≡ true
          → read_framed_datagram b'.partial ≡ short
          → Reads (b'.partial ++ concat ps) ds' (waits [])
          → AllSent sendable ds'
          → HasSent (bridge sendable (map arrived ps) b') (b'.to_peer ++ ds'))
      → HasSent (bridge sendable (map arrived ps) (received sendable x b)) (b.to_peer ++ ds)
  unfolding concat
  piece_sent p ps b ds (ds1, waits u) e up all_read sent next =
      let first : Reads (b.partial ++ p) ds1 (waits u) =
        rw e at (read_frames-Reads (b.partial ++ p)) in
      let more = read_frames (u ++ concat ps) in
      let whole : Reads ((b.partial ++ p) ++ concat ps) (ds1 ++ more.0) more.1 =
        Reads-append (concat ps) u more.0 more.1 first refl (read_frames-Reads (u ++ concat ps)) in
      let (same, ends) = Reads-unique whole (
        subst (λ (s : Text). Reads s ds (waits [])) (sym (append_assoc b.partial p (concat ps)))
          all_read) in
      let (sent1, sent2) =
        AllSent-split sendable ds1 more.0 (subst (AllSent sendable) (sym same) sent) in
      let (told, running) = send_all-sent sendable ds1 b sent1 in
      let b' : Bridge = record (send_all sendable ds1 b) { partial = u } in
      let (done, left, on) =
        next b' more.0 (running ∙ up) (Reads-stalled first refl)
          (subst (Reads (u ++ concat ps) more.0) ends (read_frames-Reads (u ++ concat ps))) sent2 in
      (
        done
            ∙ ap (λ (l : List Text). l ++ more.0) told
            ∙ append_assoc b.to_peer ds1 more.0
            ∙ ap (◌++◌ b.to_peer) same,
        left,
        on,
      )
  piece_sent p ps b ds (ds1, fails) e up all_read sent next =
      let first : Reads (b.partial ++ p) ds1 fails = rw e at (read_frames-Reads (b.partial ++ p)) in
      let whole : Reads ((b.partial ++ p) ++ concat ps) ds1 fails =
        Reads-refused (concat ps) first refl in
      let (same, ends) = Reads-unique whole (
        subst (λ (s : Text). Reads s ds (waits [])) (sym (append_assoc b.partial p (concat ps)))
          all_read) in
      absurd (ground arith)

  pieces_sent :
      (ps : List Text) (b : Bridge) (ds : List Text)
      → b.running ≡ true
      → read_framed_datagram b.partial ≡ short
      → Reads (b.partial ++ concat ps) ds (waits [])
      → AllSent sendable ds
      → HasSent (bridge sendable (map arrived ps) b) (b.to_peer ++ ds)
  unfolding bridge concat on_turn
  pieces_sent [] b ds up stalled all_read sent =
      let (same, ends) =
        Reads-unique (stop b.partial stalled)
          (subst (λ (s : Text). Reads s ds (waits [])) (append-nil b.partial) all_read) in
      (sym (append-nil b.to_peer) ∙ ap (◌++◌ b.to_peer) same, ground arith, up)
  pieces_sent (p ∷ ps) b ds up stalled all_read sent =
      subst (λ (y : Bridge). HasSent (bridge sendable (map arrived ps) y) (b.to_peer ++ ds))
        (sym (on_true b.running (on_turn sendable (arrived p) b) b up))
        (piece_sent p ps b ds (read_frames (b.partial ++ p)) refl up all_read sent (pieces_sent ps))

-- Datagrams of at most 65535 bytes that the client frames reach the peer as they were, in their
-- order, however the stream is cut into pieces, and no bytes are left over; where the peer can be
-- sent each of them and no datagram comes in between the pieces.
pub bridge-pieces :
    (sendable : Text → Bool) (ds ps : List Text)
    → AllFit ds
    → AllSent sendable ds
    → concat ps ≡ frames ds
    → HasSent (bridge sendable (map arrived ps) new_bridge) ds
unfolding read_framed_datagram
bridge-pieces sendable ds ps fit sent e =
    pieces_sent sendable ps new_bridge ds refl refl
      (subst (λ (s : Text). Reads s ds (waits [])) (sym e) (frames-Reads ds fit)) sent

stalled-read : (s : Text) → read_framed_datagram s ≡ short → read_frames s ≡ ([], waits s)
stalled-read s h = let (ds, e) = Reads-unique (read_frames-Reads s) (stop s h) in ground arith

after_stall :
    (sendable : Text → Bool) (a d : Text) (written : Bool) (b : Bridge)
    → read_framed_datagram (b.partial ++ a) ≡ short
    → on_turn sendable (inbound d written) (on_turn sendable (arrived a) b)
      ≡ on_turn sendable (inbound d written) b
unfolding on_turn send_all
after_stall sendable a d true b h = rw (stalled-read (b.partial ++ a) h) refl
after_stall sendable a d false b h = rw (stalled-read (b.partial ++ a) h) refl

stall-running :
    (sendable : Text → Bool) (a : Text) (b : Bridge)
    → read_framed_datagram (b.partial ++ a) ≡ short
    → (on_turn sendable (arrived a) b).running ≡ b.running
unfolding on_turn send_all
stall-running sendable a b h = rw (stalled-read (b.partial ++ a) h) refl

-- Where a datagram of the peer comes in while a read has taken part of a frame, these bytes are
-- lost: the session goes on as if they had never come.
pub bridge-loses :
    (sendable : Text → Bool) (a d : Text) (written : Bool) (ts : List Turn) (b : Bridge)
    → b.running ≡ true
    → read_framed_datagram (b.partial ++ a) ≡ short
    → bridge sendable (arrived a ∷ inbound d written ∷ ts) b
      ≡ bridge sendable (inbound d written ∷ ts) b
unfolding bridge
bridge-loses sendable a d written ts b up h = ap (bridge sendable ts) (
    ap (λ (y : Bridge). if y.running then on_turn sendable (inbound d written) y else y)
      (on_true b.running (on_turn sendable (arrived a) b) b up)
    ∙ on_true _ _ _ (stall-running sendable a b h ∙ up)
    ∙ after_stall sendable a d written b h
    ∙ sym (on_true b.running (on_turn sendable (inbound d written) b) b up))
