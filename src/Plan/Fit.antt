-- ===== src/Plan/Fit.antt =====
-- What a plan of plan.py promises about memory and context.
use native.Mathlib.Nat.{mod-lt, mod-add-div, mul-le-mul_left, mul-le-mul_right}
use spark_controlplane.Prelude.{
  ℕ, ◌+◌, ◌-◌, ◌*◌, ◌/◌, ◌%◌, min, max, ◌≤◌, ◌<◌, ◌≡◌, true, false, ◌&&◌, Option, none, some, List,
  [], ◌∷◌, All, arith, Option-cases, Bool-cases, inl, inr, ltb, leb, leb→le, nat_eq, ◌⊎◌,
}
use spark_controlplane.Plan.{NodeFacts, free, least_free, context_ladder}
use spark_controlplane.Plan.Whole.{
  round_div, fraction, within, first_rung, longest, max_tokens, sized_context, context,
}

round_div-cases :
    (a b : ℕ)
    → ((round_div a b ≡ a / b) × (2 * (a % b) ≤ b))
      ⊎ ((round_div a b ≡ a / b + 1) × (b ≤ 2 * (a % b)))
unfolding round_div
round_div-cases a b = ground arith

-- Rounding is off by half at most.
round_div-near :
    (a b : ℕ)
    → 0 < b
    → (2 * (b * round_div a b) ≤ 2 * a + b) × (2 * a ≤ 2 * (b * round_div a b) + b)
round_div-near a b h = elim (round_div-cases a b) [
  | inl (e, r) ↦
      rw e (
        omega (arith, mod-add-div a b, mod-lt a h, r),
        omega (arith, mod-add-div a b, mod-lt a h, r),
      )
  | inr (e, r) ↦
      rw e (
        omega (arith, mod-add-div a b, mod-lt a h, r),
        omega (arith, mod-add-div a b, mod-lt a h, r),
      )
]

pub fraction-bounds :
    (span_free per_node : ℕ)
    → 0 < per_node
    → (fraction span_free per_node ≤ 90)
      × (10 ≤ fraction span_free per_node)
      × (10 * per_node ≤ 100 * span_free
          → 2 * (per_node * fraction span_free per_node) ≤ 200 * span_free + per_node)
unfolding fraction
fraction-bounds span_free per_node h =
    let a = min (90 * per_node) (max (10 * per_node) (100 * span_free)) in
    let f = round_div a per_node in
    let near = round_div-near a per_node h in
    let upper : f ≤ 90 = elim (Bool-cases (leb f 90)) [
      | inl e ↦ leb→le f 90 e
      | inr e ↦
          let big : 91 ≤ f = ground arith in ground (arith, near.0, mul-le-mul_left per_node big, h)
    ] in
    let lower : 10 ≤ f = elim (Bool-cases (leb 10 f)) [
      | inl e ↦ leb→le 10 f e
      | inr e ↦
          let little : f ≤ 9 = ground arith in
          ground (arith, near.1, mul-le-mul_left per_node little, h)
    ] in
    (upper, lower, λ k. omega (arith, near.0, k))

none_free-All :
    (per_node m : ℕ) (ns : List NodeFacts)
    → least_free per_node ns ≡ none
    → All (λ n. m ≤ free per_node n) ns
unfolding least_free
none_free-All per_node m [] h = tt
none_free-All per_node m (n ∷ ns) h = ground arith

pub least_free-All :
    (per_node : ℕ) (ns : List NodeFacts) (m k : ℕ)
    → least_free per_node ns ≡ some k
    → m ≤ k
    → All (λ n. m ≤ free per_node n) ns
unfolding least_free
least_free-All per_node [] m k h le = tt
least_free-All per_node (n ∷ ns) m k h le = elim (Option-cases (least_free per_node ns)) [
  | inl e ↦ (ground arith, none_free-All per_node m ns e)
  | inr (j, e) ↦ (ground arith, least_free-All per_node ns m j e (ground arith))
]

longest_sound :
    (per_seq : ℕ) (trained : Option ℕ) (n : ℕ)
    → longest per_seq trained ≡ some n
    → (n ≤ per_seq) × (within trained n ≡ true) × ((4096 ≤ n) ⊎ (trained ≡ some n))
unfolding longest first_rung
longest_sound per_seq none n h = ground arith
longest_sound per_seq (some t) n h = ground arith

-- Every longer rung is too long for the memory or for the model.
pub longest-best :
    (per_seq : ℕ) (trained : Option ℕ) (n : ℕ)
    → longest per_seq trained ≡ some n
    → All (λ rung. n < rung → (leb rung per_seq && within trained rung) ≡ false) context_ladder
unfolding longest first_rung
longest-best per_seq none n h = ground arith
longest-best per_seq (some t) n h = ground arith

-- The cache of `seqs` contexts of `max_tokens / seqs` tokens stays within four fifths of the budget.
max_tokens-bound :
    (budget kv seqs n : ℕ)
    → 0 < kv
    → 0 < seqs
    → n ≤ max_tokens budget kv / seqs
    → 100_000 * (kv * (n * seqs)) ≤ budget * 8
unfolding max_tokens
max_tokens-bound budget kv seqs n hk hs h =
    let d = 100_000 * kv in
    let t = budget * 8 / d in
    let fits : n * seqs ≤ t = omega (arith, mul-le-mul_right seqs h, mod-add-div t seqs) in
    let whole : d * t ≤ budget * 8 = omega (arith, mod-add-div (budget * 8) d) in
    omega (arith, mul-le-mul_left d fits, whole)

sized_context_sound :
    (budget kv seqs : ℕ) (trained : Option ℕ) (n : ℕ)
    → 0 < kv
    → 0 < seqs
    → (sized_context budget kv seqs trained).feasible ≡ true
    → (sized_context budget kv seqs trained).max_model_len ≡ some n
    → (12_500 * (kv * (n * seqs)) ≤ budget)
      × (within trained n ≡ true)
      × ((4096 ≤ n) ⊎ (trained ≡ some n))
unfolding sized_context
sized_context_sound budget kv seqs trained n hk hs ok hn =
    elim (Option-cases (longest (max_tokens budget kv / seqs) trained)) [
      | inl e ↦ ground arith
      | inr (m, e) ↦
          let same : m ≡ n = ground arith in
          let (fits, wide, useful) =
            longest_sound (max_tokens budget kv / seqs) trained n (ground arith) in
          (omega (arith, max_tokens-bound budget kv seqs n hk hs fits), wide, useful)
    ]

pub context_sound :
    (kv whole needed seqs : ℕ) (trained : Option ℕ) (n : ℕ)
    → 0 < seqs
    → (context (some kv) whole needed seqs trained).feasible ≡ true
    → (context (some kv) whole needed seqs trained).max_model_len ≡ some n
    → (needed + 12_500 * (kv * (n * seqs)) ≤ whole)
      × (within trained n ≡ true)
      × ((4096 ≤ n) ⊎ (trained ≡ some n))
unfolding context
context_sound kv whole needed seqs trained n hs ok hn =
    elim (Bool-cases (ltb 0 kv && ltb needed whole)) [
      | inl e ↦
          let kv_pos : 0 < kv = ground arith in
          let (fits, wide, useful) =
            sized_context_sound (whole - needed) kv seqs trained n kv_pos hs (ground arith)
              (ground arith) in
          (ground arith, wide, useful)
      | inr e ↦ ground arith
    ]
