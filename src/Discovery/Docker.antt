-- ===== src/Discovery/Docker.antt =====
-- src/discovery/docker.rs: the provider that polls the Docker daemon. Connecting and listing are
-- bollard's, and given for each turn of the loop.
pub mod Changes
use archetype_proxy_server.Prelude.{
  ℕ, max, Bool, true, false, ◌||◌, Option, none, some, List, [], ◌∷◌, ◌++◌, unwrap_or,
  if◌then◌else◌,
}
use archetype_proxy_server.Text.{Str, codes, starts_with}
use archetype_proxy_server.Config.Route.{Route}
use archetype_proxy_server.Discovery.Equal.{route_eq, option_eq, list_eq}
use archetype_proxy_server.Discovery.Labels.{Labels, routes_from_labels}

pub record DockerProvider : Type 0 where
  pub socket : Str
  pub poll : ℕ

-- `DockerProvider::new`: the interval in seconds is at least one.
unfoldable pub new : Str → ℕ → DockerProvider
new socket poll_secs = record { socket = socket; poll = max poll_secs 1 }

pub data SocketKind : Type 0 where
  unix http : SocketKind

unfoldable pub socket_kind : Str → SocketKind
unfolding starts_with
socket_kind socket = if starts_with socket (codes "unix://") then unix else http

pub record Container : Type 0 where
  pub id : Option Str
  pub labels : Option Labels

-- `poll_once`, from the containers on
unfoldable pub poll_once : List Container → List Route
poll_once [] = []
poll_once (c ∷ containers) =
    (routes_from_labels (unwrap_or c.id []) (unwrap_or c.labels [])).0 ++ poll_once containers

-- What a turn meets: whether a connection can be made, and the running containers, unless listing
-- them fails.
pub record Tick : Type 0 where
  pub connects : Bool
  pub listed : Option (List Container)

-- `sent` are the snapshots that the manager was sent, the last one first, and `closed` holds once
-- the manager dropped the receiver.
pub record Poller : Type 0 where
  pub connected : Bool
  pub last : Option (List Route)
  pub sent : List (List Route)
  pub closed : Bool

abbrev pub started : Poller
started = record { connected = false; last = none; sent = []; closed = false }

abbrev pub publish : (List Route → Bool) → Poller → List Route → Poller
publish open_for p routes =
    if option_eq (list_eq route_eq) p.last (some routes)
    then record { connected = true; last = p.last; sent = p.sent; closed = false }
    else if open_for routes
    then record { connected = true; last = some routes; sent = routes ∷ p.sent; closed = false }
    else record { connected = true; last = p.last; sent = p.sent; closed = true }

abbrev pub disconnected : Poller → Poller
disconnected p = record { connected = false; last = p.last; sent = p.sent; closed = false }

abbrev pub polled : (List Route → Bool) → Poller → Option (List Container) → Poller
polled open_for p none = disconnected p
polled open_for p (some containers) = publish open_for p (poll_once containers)

-- One turn of the loop: connect if need be, then poll.
unfoldable pub turn : (List Route → Bool) → Poller → Tick → Poller
turn open_for p t = if p.connected || t.connects then polled open_for p t.listed else disconnected p

-- The loop, on the turns so far.
unfoldable pub run : (List Route → Bool) → Poller → List Tick → Poller
run open_for p [] = p
run open_for p (t ∷ ticks) =
    let next = turn open_for p t in
    let rest = run open_for next ticks in if next.closed then next else rest
