-- ===== src/Power/Wake.antt =====
-- When a node is woken, and by whom.
use spark_controlplane.Prelude.{
  ℕ, ◌≡◌, refl, ◌∙◌, inl, inr, Bool, true, false, not, ◌&&◌, ◌||◌, Option, none, some, List, [],
  ◌∷◌, arith, any, any-append, keep_if, Option-cases, ◌==◌, nat_eq,
}
use spark_controlplane.Text.{Text}
use spark_controlplane.Power.{
  Node, Relay, sent, relay, by_reach, is_true, World, find_node, normalize_mac, wake_node, is_woken,
}

abbrev pub sends : Relay → Bool
sends sent = true
sends _ = false

abbrev is_some : Option ℕ → Bool
is_some none = false
is_some (some p) = true

relay-any :
    (outcome : ℕ → Relay) (ns : List Node)
    → is_some (relay outcome ns).0 ≡ any (λ n. sends (outcome n.id)) ns
unfolding relay
relay-any outcome [] = refl
relay-any outcome (n ∷ ns) = ground (arith, relay-any outcome ns)

any-by_reach :
    (p : Node → Bool) (reachable : ℕ → Option Bool) (ns : List Node)
    → any p (by_reach reachable ns) ≡ any p ns
unfolding by_reach
any-by_reach p reachable ns = any-append p (keep_if up ns) (keep_if (λ n. not (up n)) ns) ∙ parts ns
  where
    up : Node → Bool
    up n = is_true (reachable n.id)

    parts :
        (ms : List Node)
        → (any p (keep_if up ms) || any p (keep_if (λ n. not (up n)) ms)) ≡ any p ms
    parts [] = refl
    parts (m ∷ ms) = ground (arith, parts ms)

any-keep_if : (p q : Node → Bool) (ns : List Node) → any p (keep_if q ns) ≡ any (λ n. q n && p n) ns
any-keep_if p q [] = refl
any-keep_if p q (n ∷ ns) = ground (arith, any-keep_if p q ns)

-- A known node with an address is woken exactly if one of the other nodes sends the packet or it can
-- be sent directly, whatever the telemetry believes of the nodes.
pub wake_node-woken :
    (w : World) (i : ℕ) (nodes : List Node) (node : Node) (mac : Text)
    → find_node i nodes ≡ some node
    → normalize_mac node.mac_address ≡ some mac
    → is_woken (wake_node w i nodes).0
      ≡ (any (λ n. not (n.id == i) && sends (w.outcome n.id)) nodes || w.udp)
unfolding wake_node
wake_node-woken w i nodes node mac known address =
    let peers = by_reach w.reachable (keep_if (λ n. not (n.id == i)) nodes) in
    let asked =
      relay-any w.outcome peers
      ∙ any-by_reach (λ n. sends (w.outcome n.id)) w.reachable
          (keep_if (λ n. not (n.id == i)) nodes)
      ∙ any-keep_if (λ n. sends (w.outcome n.id)) (λ n. not (n.id == i)) nodes in
    elim (Option-cases (relay w.outcome peers).0) [
      | inl nobody ↦ rw (wake_node, known, address, nobody) (ground (arith, asked, nobody))
      | inr (p, found) ↦ rw (wake_node, known, address, found) (ground (arith, asked, found))
    ]
