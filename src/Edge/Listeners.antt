-- ===== src/Edge/Listeners.antt =====
-- The managers of the per-port listeners: `run_tcp_edge` and `resync_listeners` of
-- crates/rustunnel-server/src/edge/tcp.rs, which edge/udp.rs has with UDP events. A listener is a
-- task; the handles name one for each port, and the running tasks are those of the `JoinSet`.
pub mod Follow
pub mod Events
pub mod Reports
pub mod CaughtUp
pub mod Tidy
use rustunnel.Prelude.{
  ℕ, suc, ◌+◌, Bool, true, false, not, Option, none, some, List, [], ◌∷◌, if◌then◌else◌, contains,
}
use rustunnel.Prelude.Eq.{nat_eq}
use rustunnel.Prelude.Map.{Map, get, insert, remove, contains_key}

-- The ports of a routing table.
unfoldable pub ports {ℓ} : {V : Type ℓ} → Map ℕ V → List ℕ
ports [] = []
ports ((port, v) ∷ m) = port ∷ ports m

pub record Listeners : Type 0 where
  pub handles : Map ℕ ℕ
  pub running : Map ℕ ℕ
  pub next_task : ℕ

-- What the event channel gives: an event, the report that some were lost, or its end.
pub data Received : Type 0 where
  registered unregistered : (port : ℕ) → Received
  lagged closed : Received

unfoldable pub no_listeners : Listeners
no_listeners = record { handles = []; running = []; next_task = 0 }

-- `AbortHandle::abort`
abbrev pub abort : Option ℕ → Map ℕ ℕ → Map ℕ ℕ
abort none running = running
abort (some task) running = remove task running

-- A listener is spawned and its handle stored; the handle that it replaces, if any, is aborted.
unfoldable pub start_listener : ℕ → Listeners → Listeners
start_listener port ls = record {
  handles = insert port ls.next_task ls.handles;
  running = abort (get port ls.handles) (insert ls.next_task port ls.running);
  next_task = suc ls.next_task;
}

unfoldable pub stop_listener : ℕ → Listeners → Listeners
stop_listener port ls = record ls {
  handles = remove port ls.handles;
  running = abort (get port ls.handles) ls.running;
}

-- `handles.retain`: the handles of active ports stay, the others are aborted.
unfoldable pub retain_active : List ℕ → Map ℕ ℕ → Map ℕ ℕ → Map ℕ ℕ × Map ℕ ℕ
retain_active active [] running = ([], running)
retain_active active ((port, task) ∷ hs) running =
    let (kept, left) = retain_active active hs running in
    if contains port active then ((port, task) ∷ kept, left) else (kept, remove task left)

-- The active ports that have no handle get a listener.
unfoldable pub start_missing : List ℕ → Listeners → Listeners
unfolding start_listener
start_missing [] ls = ls
start_missing (port ∷ ports) ls =
    start_missing ports (if contains_key port ls.handles then ls else start_listener port ls)

unfoldable pub resync_listeners : List ℕ → Listeners → Listeners
unfolding retain_active start_missing
resync_listeners active ls =
    let (kept, left) = retain_active active ls.handles ls.running in
    start_missing active (record ls { handles = kept; running = left })

-- The listeners of the ports that are routed at the start.
unfoldable pub bootstrap : List ℕ → Listeners → Listeners
bootstrap [] ls = ls
bootstrap (port ∷ ports) ls = bootstrap ports (start_listener port ls)

-- One turn of the manager, with the ports that are routed at that moment.
unfoldable pub on_received : List ℕ → Received → Listeners → Listeners
on_received active (registered port) ls = start_listener port ls
on_received active (unregistered port) ls = stop_listener port ls
on_received active lagged ls = resync_listeners active ls
on_received active closed ls = no_listeners

-- The loop ends at the end of the channel, where all tasks are aborted.
unfoldable pub manage : List (List ℕ × Received) → Listeners → Listeners
manage [] ls = ls
manage ((active, closed) ∷ rs) ls = on_received active closed ls
manage ((active, registered port) ∷ rs) ls = manage rs (on_received active (registered port) ls)
manage ((active, unregistered port) ∷ rs) ls = manage rs (on_received active (unregistered port) ls)
manage ((active, lagged) ∷ rs) ls = manage rs (on_received active lagged ls)

unfoldable pub run_tcp_edge : (routed : List ℕ) → List (List ℕ × Received) → Listeners
unfolding manage bootstrap no_listeners
run_tcp_edge routed rs = manage rs (bootstrap routed no_listeners)
