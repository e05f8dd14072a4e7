-- ===== src/Plan/Committed.antt =====
-- committed_gib_by_node of plan.py. A utilization is a number of percent, and so is what is promised
-- of the hundredths of a byte of a node.
use spark_controlplane.Prelude.{
  ℕ, ◌+◌, ◌*◌, ◌≡◌, refl, Bool, true, false, ◌&&◌, ◌||◌, Option, none, some, List, [], ◌∷◌, arith,
  contains, ◌==◌, nat_eq, if◌then◌else◌, nat_beq_iff, Option-cases, inl, inr,
}
use spark_controlplane.Dict.{Dict, get, set, get_or}
use spark_controlplane.Dict.Laws.{get-set}
use spark_controlplane.Models.{
  InstStatus, starting, running, Topology, cluster, distributed, single, status_eq,
}
use spark_controlplane.Plan.{or_zero}

-- The columns of an Instance that are read.
pub record Claim : Type 0 where
  pub status : InstStatus
  pub gpu_memory_utilization : Option ℕ
  pub topology : Topology
  pub node_id : Option ℕ

unfoldable pub none_used : List ℕ → Dict ℕ ℕ → Dict ℕ ℕ
none_used [] used = used
none_used (n ∷ nodes) used = none_used nodes (set n 0 used)

-- `used[n] += share`
abbrev pub add : ℕ → ℕ → Dict ℕ ℕ → Dict ℕ ℕ
add n share used = set n (get_or n 0 used + share) used

unfoldable pub add_all : List ℕ → ℕ → Dict ℕ ℕ → Dict ℕ ℕ
add_all [] share used = used
add_all (n ∷ nodes) share used = add_all nodes share (add n share used)

abbrev pub is_active : InstStatus → Bool
is_active status = (status == starting) || (status == running)

abbrev pub spans_all : Topology → Bool
spans_all cluster = true
spans_all distributed = true
spans_all single = false

-- `elif inst.node_id in used`
unfoldable pub add_known : Option ℕ → ℕ → Dict ℕ ℕ → Dict ℕ ℕ
unfolding get
add_known none share used = used
add_known (some n) share used = elim (get n used) [ none ↦ used | some u ↦ add n share used ]

unfoldable pub commit_one : List ℕ → ℕ → Claim → Dict ℕ ℕ → Dict ℕ ℕ
unfolding add_all add_known
commit_one nodes memory c used =
    let share = or_zero c.gpu_memory_utilization * memory in
    let everywhere = add_all nodes share used in
    let there = add_known c.node_id share used in
    if is_active c.status then (if spans_all c.topology then everywhere else there) else used

unfoldable pub commit_all : List ℕ → ℕ → List Claim → Dict ℕ ℕ → Dict ℕ ℕ
unfolding commit_one
commit_all nodes memory [] used = used
commit_all nodes memory (c ∷ cs) used = commit_all nodes memory cs (commit_one nodes memory c used)

-- The nodes are given by their ids.
unfoldable pub committed_gib_by_node : List Claim → List ℕ → ℕ → Dict ℕ ℕ
unfolding commit_all none_used
committed_gib_by_node cs nodes memory = commit_all nodes memory cs (none_used nodes [])

abbrev pub is_node : Option ℕ → ℕ → Bool
is_node none n = false
is_node (some m) n = m == n

-- What the instances that run or start on a node have of it.
abbrev pub is_on : ℕ → Claim → Bool
is_on n c = is_active c.status && (spans_all c.topology || is_node c.node_id n)

abbrev pub share_of : ℕ → ℕ → List Claim → ℕ
share_of n memory [] = 0
share_of n memory (c ∷ cs) =
    (if is_on n c then or_zero c.gpu_memory_utilization * memory else 0) + share_of n memory cs

-- The ids differ, as keys of a table do.
abbrev pub AreDistinct : List ℕ → Type 0
AreDistinct [] = Unit
AreDistinct (n ∷ ns) = (contains n ns ≡ false) × AreDistinct ns

abbrev has : ℕ → Dict ℕ ℕ → Bool
has n d = elim (get n d) [ none ↦ false | some u ↦ true ]

add_all-other :
    (n : ℕ) (nodes : List ℕ) (share : ℕ) (used : Dict ℕ ℕ)
    → contains n nodes ≡ false
    → get n (add_all nodes share used) ≡ get n used
unfolding add_all
add_all-other n [] share used h = refl
add_all-other n (m ∷ nodes) share used h = ground (
  arith,
  add_all-other n nodes share (add m share used),
  get-set m n (get_or m 0 used + share) used,
)

get-add_all :
    (n : ℕ) (nodes : List ℕ) (share : ℕ) (used : Dict ℕ ℕ)
    → AreDistinct nodes
    → contains n nodes ≡ true
    → get n (add_all nodes share used) ≡ some (get_or n 0 used + share)
unfolding add_all get_or
get-add_all n [] share used d h = ground arith
get-add_all n (m ∷ nodes) share used (new, d) h = ground (
  arith,
  get-add_all n nodes share (add m share used) d,
  add_all-other n nodes share (add m share used),
  get-set m n (get_or m 0 used + share) used,
  nat_beq_iff m n,
)

get-add_known :
    (n : ℕ) (o : Option ℕ) (share u : ℕ) (used : Dict ℕ ℕ)
    → get n used ≡ some u
    → get n (add_known o share used) ≡ some (u + (if is_node o n then share else 0))
unfolding add_known get_or
get-add_known n none share u used e = ground arith
get-add_known n (some m) share u used e = elim (Option-cases (get m used)) [
  | inl f ↦ ground (arith, nat_beq_iff m n)
  | inr (v, f) ↦ ground (arith, get-set m n (v + share) used, nat_beq_iff m n)
]

get-commit_one :
    (n : ℕ) (nodes : List ℕ) (memory u : ℕ) (c : Claim) (used : Dict ℕ ℕ)
    → AreDistinct nodes
    → contains n nodes ≡ true
    → get n used ≡ some u
    → get n (commit_one nodes memory c used)
      ≡ some (u + (if is_on n c then or_zero c.gpu_memory_utilization * memory else 0))
unfolding commit_one get_or
get-commit_one n nodes memory u c used d h e =
    let share = or_zero c.gpu_memory_utilization * memory in
    ground (arith, get-add_all n nodes share used d h, get-add_known n c.node_id share u used e)

get-commit_all :
    (n : ℕ) (nodes : List ℕ) (memory u : ℕ) (cs : List Claim) (used : Dict ℕ ℕ)
    → AreDistinct nodes
    → contains n nodes ≡ true
    → get n used ≡ some u
    → get n (commit_all nodes memory cs used) ≡ some (u + share_of n memory cs)
unfolding commit_all
get-commit_all n nodes memory u [] used d h e = ground arith
get-commit_all n nodes memory u (c ∷ cs) used d h e = ground (
  arith,
  get-commit_all n nodes memory
      (u + (if is_on n c then or_zero c.gpu_memory_utilization * memory else 0)) cs
      (commit_one nodes memory c used) d h (get-commit_one n nodes memory u c used d h e),
)

none_used-known :
    (n : ℕ) (nodes : List ℕ) (used : Dict ℕ ℕ)
    → get n used ≡ some 0
    → get n (none_used nodes used) ≡ some 0
unfolding none_used
none_used-known n [] used h = h
none_used-known n (m ∷ nodes) used h =
    none_used-known n nodes (set m 0 used) (ground (arith, get-set m n 0 used))

get-none_used :
    (n : ℕ) (nodes : List ℕ) (used : Dict ℕ ℕ)
    → contains n nodes ≡ true
    → get n (none_used nodes used) ≡ some 0
unfolding none_used
get-none_used n [] used h = ground arith
get-none_used n (m ∷ nodes) used h = ground (
  arith,
  get-none_used n nodes (set m 0 used),
  none_used-known n nodes (set m 0 used),
  get-set m n 0 used,
  nat_beq_iff m n,
)

-- For nodes of different ids, what is committed on a node is the sum of the fractions of the
-- instances that run or start, of those that span all nodes and those on this one.
pub committed_gib_by_node_lem :
    (cs : List Claim) (nodes : List ℕ) (memory n : ℕ)
    → AreDistinct nodes
    → contains n nodes ≡ true
    → get n (committed_gib_by_node cs nodes memory) ≡ some (share_of n memory cs)
unfolding committed_gib_by_node
committed_gib_by_node_lem cs nodes memory n d h = ground (
  arith,
  get-commit_all n nodes memory 0 cs (none_used nodes []) d h (get-none_used n nodes [] h),
)
