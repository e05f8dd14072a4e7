-- ===== src/Ports/Allocation.antt =====
-- The allocated port of ports.py is free, the least free one, and always found.
use spark_controlplane.Prelude.{
  ℕ, zero, suc, ◌+◌, ◌≤◌, ◌<◌, ◌≡◌, ◌≢◌, true, false, Option, none, some, List, [], ◌∷◌, ◌++◌,
  arith, All, contains, contains-append, ◌==◌, nat_eq, leb, Bool-cases, beq_eq, eq_of_some, sym,
  ◌∙◌, inl, inr, if◌then◌else◌,
}
use spark_controlplane.Models.{Instance, Topology, topology_eq}
use spark_controlplane.Binding.{effective_port}
use spark_controlplane.Ports.{
  api_port_start, reserved, api_taken, first_free, size, allocate_api_port, scan, port_conflict,
  serving_node_id, my_endpoint,
}

-- How many of the ports are at least `port`.
abbrev above : ℕ → List ℕ → ℕ
above port [] = 0
above port (p ∷ ps) = (if leb port p then 1 else 0) + above port ps

above-le-size : (port : ℕ) (ps : List ℕ) → above port ps ≤ size ps
above-le-size port [] = omega arith
above-le-size port (p ∷ ps) = ground (arith, above-le-size port ps)

above-suc-le : (port : ℕ) (ps : List ℕ) → above (port + 1) ps ≤ above port ps
above-suc-le port [] = omega arith
above-suc-le port (p ∷ ps) = ground (arith, above-suc-le port ps)

above-suc-lt :
    (port : ℕ) (ps : List ℕ) → contains port ps ≡ true → above (port + 1) ps < above port ps
above-suc-lt port [] h = ground arith
above-suc-lt port (p ∷ ps) h = ground (arith, above-suc-lt port ps, above-suc-le port ps)

-- A port is found, it is not taken, and all ports from the start up to it are.
record IsFirstFree (start : ℕ) (taken : List ℕ) (port : ℕ) : Type 0 where
  pub from_start : start ≤ port
  pub free : contains port taken ≡ false
  pub least : (q : ℕ) → start ≤ q → q < port → contains q taken ≡ true

first_free-IsFirstFree :
    (fuel start : ℕ) (taken : List ℕ)
    → above start taken < fuel
    → (port : ℕ) × (first_free fuel start taken ≡ some port) × IsFirstFree start taken port
unfolding first_free
first_free-IsFirstFree zero start taken h = absurd (omega arith)
first_free-IsFirstFree (suc fuel) start taken h = elim (Bool-cases (contains start taken)) [
  | inr free ↦ (
    start,
    rw (free, first_free),
    record { from_start = omega arith; free = free; least = λ q lo hi. absurd (omega arith) },
  )
  | inl busy ↦
      let (port, found, first) =
        first_free-IsFirstFree fuel (start + 1) taken
          (omega (arith, above-suc-lt start taken busy)) in
      (
        port,
        rw (busy, first_free) found,
        record {
          from_start = omega (arith, first.from_start);
          free = first.free;
          least = λ q lo hi. elim (Bool-cases (q == start)) [
            | inl here ↦ rw (beq_eq q start here) busy
            | inr later ↦ first.least q (ground arith) hi
          ];
        },
      )
]

-- The row's ports are none of `port`.
abbrev pub Avoids : ℕ → Instance → Type 0
Avoids port inst =
    (port ≢ inst.port)
    × (port ≢ effective_port inst)
    × ((inst.tls_enabled ≡ true) → (port ≢ inst.tls_port))

row_avoids :
    (port eff : ℕ) (taken : List ℕ) (inst : Instance)
    → contains port (
        let added = taken ++ inst.port ∷ eff ∷ [] in
        if inst.tls_enabled then added ++ inst.tls_port ∷ [] else added)
      ≡ false
    → (contains port taken ≡ false)
      × (port ≢ inst.port)
      × (port ≢ eff)
      × ((inst.tls_enabled ≡ true) → (port ≢ inst.tls_port))
row_avoids port eff taken inst h =
    let added = taken ++ inst.port ∷ eff ∷ [] in
    ground (
      arith,
      contains-append port taken (inst.port ∷ eff ∷ []),
      contains-append port added (inst.tls_port ∷ []),
    )

api_taken-contains :
    (port : ℕ) (taken : List ℕ) (rows : List Instance)
    → contains port (api_taken taken rows) ≡ false
    → (contains port taken ≡ false) × All (Avoids port) rows
unfolding api_taken
api_taken-contains port taken [] h = (h, tt)
api_taken-contains port taken (inst ∷ rows) h =
    let (free, rest) = api_taken-contains port _ rows h in
    let (before, own, pinned, tls) = row_avoids port (effective_port inst) taken inst free in
    (before, ((own, pinned, tls), rest))

-- An allocation always ends with a port: one from 8000 on, not reserved, that no row claims as
-- its own, pinned or TLS port; and every smaller port from 8000 on is reserved or claimed.
pub allocate_api_port_lem :
    (rows : List Instance)
    → (port : ℕ) × (allocate_api_port rows ≡ some port)
      × (api_port_start ≤ port)
      × (contains port reserved ≡ false)
      × All (Avoids port) rows
      × ((q : ℕ) → api_port_start ≤ q → q < port → contains q (api_taken reserved rows) ≡ true)
unfolding allocate_api_port
allocate_api_port_lem rows =
    let taken = api_taken reserved rows in
    let (port, found, first) =
      first_free-IsFirstFree (suc (size taken)) api_port_start taken
        (omega (arith, above-le-size api_port_start taken)) in
    let (free, avoids) = api_taken-contains port reserved rows first.free in
    (port, found, first.from_start, free, avoids, first.least)

scan-none :
    (head scope exclude_id mine : Option ℕ) (port : ℕ) (rows : List Instance)
    → contains port reserved ≡ false
    → All (Avoids port) rows
    → scan head scope exclude_id mine port rows ≡ none
unfolding scan
scan-none head scope exclude_id mine port [] free avoids = rw free
scan-none head scope exclude_id mine port (other ∷ rows) free avoids =
    let rest = scan-none head scope exclude_id mine port rows free avoids.1 in
    ground (arith, rest, avoids.0.1, avoids.0.2)

-- A port that was allocated conflicts with no row, whatever topology and node it is for, and as
-- whosever edit it is checked.
pub port_conflict-allocate :
    (rows : List Instance) (port : ℕ) (head node_id exclude_id endpoint_id : Option ℕ)
    (topology : Topology)
    → allocate_api_port rows ≡ some port
    → port_conflict head rows port topology node_id exclude_id endpoint_id ≡ none
unfolding port_conflict
port_conflict-allocate rows port head node_id exclude_id endpoint_id topology e =
    let (port', found, from, free, avoids, least) = allocate_api_port_lem rows in
    let same : port' ≡ port = eq_of_some (sym found ∙ e) in
    scan-none head (serving_node_id head topology node_id) exclude_id
      (my_endpoint endpoint_id exclude_id rows) port rows (rw same at free) (rw same at avoids)
