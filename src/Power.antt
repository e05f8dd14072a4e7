-- ===== src/Power.antt =====
-- backend/app/services/power.py: the address and the packet of Wake-on-LAN, and the jobs that shut
-- nodes down and wake them. What a command or a packet does is an argument.
pub mod Packet
pub mod Wake
mod Tests
use spark_controlplane.Prelude.{
  ℕ, zero, suc, ◌+◌, ◌*◌, ◌-◌, ◌/◌, ◌%◌, String, Bool, true, false, not, ◌&&◌, ◌||◌, Option, none,
  some, List, [], ◌∷◌, ◌++◌, map, keep_if, leb, ltb, length, ◌==◌, nat_eq, if◌then◌else◌,
}
use spark_controlplane.Text.{Text, strip, lower, is_digit}
use spark_controlplane.Models.{
  Instance, InstStatus, stopped, starting, running, stopping, error, status_eq, single, topology_eq,
}

-- `raw.strip().lower().replace("-", ":")`
unfoldable pub colons : Text → Text
colons [] = []
colons (c ∷ cs) = (if c == b'-' then b':' else c) ∷ colons cs

abbrev pub is_hex : ℕ → Bool
is_hex c = is_digit c || (leb b'a' c && leb c b'f')

-- MAC_RE: a pair of digits, and `n` more of them with a colon in front.
unfoldable pub is_pairs : ℕ → Text → Bool
is_pairs zero (a ∷ b ∷ []) = is_hex a && is_hex b
is_pairs (suc n) (a ∷ b ∷ c ∷ rest) = is_hex a && is_hex b && (c == b':') && is_pairs n rest
is_pairs _ _ = false

-- `normalize_mac`; a text of no letters is no address either.
unfoldable pub normalize_mac : Option Text → Option Text
unfolding colons is_pairs strip lower
normalize_mac none = none
normalize_mac (some raw) =
    let mac = colons (lower (strip raw)) in if is_pairs 5 mac then some mac else none

abbrev pub hex_value : ℕ → ℕ
hex_value c = if is_digit c then c - 48 else c - 87

-- `bytes.fromhex(norm.replace(":", ""))` of a normal address.
unfoldable pub from_hex : Text → List ℕ
from_hex (a ∷ b ∷ []) = (16 * hex_value a + hex_value b) ∷ []
from_hex (a ∷ b ∷ c ∷ rest) = (16 * hex_value a + hex_value b) ∷ from_hex rest
from_hex _ = []

abbrev pub times : ℕ → List ℕ → List ℕ
times zero bytes = []
times (suc n) bytes = bytes ++ times n bytes

-- `build_magic_packet`; `none` is the ValueError.
unfoldable pub build_magic_packet : Text → Option (List ℕ)
unfolding normalize_mac from_hex
build_magic_packet mac = elim (normalize_mac (some mac)) [
  | none ↦ none
  | some norm ↦ some (times 6 (255 ∷ []) ++ times 16 (from_hex norm))
]

pub record Node : Type 0 where
  pub id : ℕ
  pub name : String
  pub is_head : Bool
  pub mac_address : Option Text

-- INST_ACTIVE_STATES
abbrev pub is_live : InstStatus → Bool
is_live running = true
is_live starting = true
is_live _ = false

-- `affected_instances`
unfoldable pub affected_instances : ℕ → List Instance → List String
affected_instances node [] = []
affected_instances node (i ∷ is) =
    let rest = affected_instances node is in
    if is_live i.status
      && (not (i.topology == single) || elim i.node_id [ none ↦ false | some n ↦ n == node ])
    then i.name ∷ rest
    else rest

abbrev pub is_true : Option Bool → Bool
is_true (some true) = true
is_true _ = false

-- `others.sort(key=… is not True)`: a stable sort, the reachable ones first.
unfoldable pub by_reach : (ℕ → Option Bool) → List Node → List Node
by_reach reachable ns =
    keep_if (λ n. is_true (reachable n.id)) ns ++ keep_if (λ n. not (is_true (reachable n.id))) ns

-- What a peer does with the packet.
pub data Relay : Type 0 where
  sent : Relay
  relay_failed : Relay
  unreachable : Relay

pub data Outcome : Type 0 where
  unknown_node : Outcome
  no_mac : Outcome
  via_peer : (peer : ℕ) → Outcome
  sent_directly : Outcome
  could_not_send : Outcome

-- The loop over the peers: the first that sends the packet, with the peers that were tried.
unfoldable pub relay : (ℕ → Relay) → List Node → Option ℕ × List ℕ
relay outcome [] = (none, [])
relay outcome (n ∷ ns) =
    let rest = relay outcome ns in
    elim (outcome n.id) [
      | sent ↦ (some n.id, n.id ∷ [])
      | relay_failed ↦ (rest.0, n.id ∷ rest.1)
      | unreachable ↦ (rest.0, n.id ∷ rest.1)
    ]

abbrev pub find_node : ℕ → List Node → Option Node
find_node i [] = none
find_node i (n ∷ ns) = if n.id == i then some n else find_node i ns

-- The world of a wake: what the telemetry knows, what a peer does, whether the UDP packets go out.
pub record World : Type 0 where
  pub reachable : ℕ → Option Bool
  pub outcome : ℕ → Relay
  pub udp : Bool

-- `wake_node`, with the peers that were tried.
unfoldable pub wake_node : World → ℕ → List Node → Outcome × List ℕ
unfolding normalize_mac by_reach relay
wake_node w i nodes = elim (find_node i nodes) [
  | none ↦ (unknown_node, [])
  | some node ↦ elim (normalize_mac node.mac_address) [
    | none ↦ (no_mac, [])
    | some mac ↦
        let (peer, tried) =
          relay w.outcome (by_reach w.reachable (keep_if (λ n. not (n.id == i)) nodes)) in
        elim peer [
          | some p ↦ (via_peer p, tried)
          | none ↦ (if w.udp then sent_directly else could_not_send, tried)
        ]
  ]
]

abbrev pub is_woken : Outcome → Bool
is_woken (via_peer p) = true
is_woken sent_directly = true
is_woken _ = false

-- `batch_power` of "wake": how many nodes are woken; `none` is the error that none is.
unfoldable pub count_woken : World → List Node → List Node → ℕ
unfolding wake_node
count_woken w all_nodes [] = 0
count_woken w all_nodes (n ∷ ns) =
    (if is_woken (wake_node w n.id all_nodes).0 then 1 else 0) + count_woken w all_nodes ns

unfoldable pub batch_wake : World → List Node → Option ℕ
unfolding count_woken
batch_wake w nodes =
    if count_woken w nodes nodes == 0 then none else some (count_woken w nodes nodes)

-- `batch_power` of "shutdown": the order of the shutdowns, of which a failed one is only logged.
unfoldable pub shutdown_order : List Node → List Node
shutdown_order nodes = keep_if (λ n. not n.is_head) nodes ++ keep_if (λ n. n.is_head) nodes
