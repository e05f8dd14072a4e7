-- ===== src/Power/Tests.antt =====
-- Runs of power.py, and its theorems at concrete inputs.
use spark_controlplane.Prelude.{
  ℕ, ◌≡◌, ◌<◌, ◌||◌, ◌&&◌, refl, true, false, not, none, some, List, [], ◌∷◌, ◌++◌, All, any,
  length, nat_eq, ◌==◌, if◌then◌else◌,
}
use spark_controlplane.Text.{Text, codes}
use spark_controlplane.Power.{
  Node, sent, unreachable, World, normalize_mac, from_hex, times, build_magic_packet, wake_node,
  is_woken, via_peer, batch_wake,
}
use spark_controlplane.Power.Packet.{mac_text, build_magic_packet_lem}
use spark_controlplane.Power.Wake.{sends, wake_node-woken}

abbrev typed : Text
typed = codes " 0A-1b-2C-3d-4E-5f "

abbrev address : Text
address = codes "0a:1b:2c:3d:4e:5f"

typed_normal : normalize_mac (some typed) ≡ some address
unfolding normalize_mac
typed_normal = refl

too_short : normalize_mac (some (codes "0a:1b:2c:3d:4e")) ≡ none
unfolding normalize_mac
too_short = refl

abbrev head : Node
head = record { id = 1; name = "one"; is_head = true; mac_address = some typed }

abbrev nodes : List Node
nodes =
    head
    ∷ record { id = 2; name = "two"; is_head = false; mac_address = none }
    ∷ record { id = 3; name = "three"; is_head = false; mac_address = none }
    ∷ []

-- The second node is off, the third relays.
abbrev world : World
world = record {
  reachable = λ i. if i == 3 then some true else some false;
  outcome = λ i. if i == 3 then sent else unreachable;
  udp = false;
}

woken : wake_node world 1 nodes ≡ (via_peer 3, 3 ∷ [])
unfolding wake_node
woken = refl

woken_all : batch_wake world nodes ≡ some 1
unfolding batch_wake
woken_all = refl

build_magic_packet_lem_example :
    (packet : List ℕ) × (build_magic_packet typed ≡ some packet)
    × (packet ≡ times 6 (255 ∷ []) ++ times 16 (from_hex address))
    × (length packet ≡ 102)
    × All (λ b. b < 256) packet
    × (mac_text (from_hex address) ≡ address)
build_magic_packet_lem_example = build_magic_packet_lem typed address typed_normal

wake_node-woken_test :
    is_woken (wake_node world 1 nodes).0
    ≡ (any (λ n. not (n.id == 1) && sends (world.outcome n.id)) nodes || world.udp)
wake_node-woken_test = wake_node-woken world 1 nodes head address refl typed_normal
