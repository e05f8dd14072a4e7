-- ===== src/Ratelimit/Concurrency.antt =====
-- The concurrency slots of ratelimit.py: caps, pairing of `acquire` and `release`.
use spark_controlplane.Prelude.{
  ℕ, zero, suc, ◌+◌, ◌-◌, ◌≤◌, ◌<◌, ◌≡◌, refl, Bool, true, ◌&&◌, Option, none, some, List, [], ◌∷◌,
  arith, ltb, ◌==◌, nat_eq, string_eq, pair_eq, pair_beq_iff, if◌then◌else◌,
}
use spark_controlplane.Dict.{set, get_or, setdefault}
use spark_controlplane.Dict.Laws.{get-set, get-pop, get_or-set, get_or-setdefault}
use spark_controlplane.Ratelimit.{Key, Limiter, held, acquire, release}

-- A limit of None or 0 means no limit.
abbrev pub allows : Option ℕ → ℕ → Bool
allows none n = true
allows (some zero) n = true
allows (some (suc cap)) n = ltb n (suc cap)

-- `acquire` is granted exactly if the pair's count is below its cap; it then adds one to this
-- pair's count, and no other pair's count changes, granted or not.
pub acquire_lem :
    (l : Limiter) (key other : Key) (cap : Option ℕ)
    → ((acquire l key cap).0 ≡ allows cap (held l key))
      × (held (acquire l key cap).1 other
          ≡ (if (acquire l key cap).0 && (key == other) then held l other + 1 else held l other))
unfolding acquire
acquire_lem l key other none = (
  refl,
  ground (arith, get_or-set key other (held l key + 1) 0 l.inflight, pair_beq_iff key other),
)
acquire_lem l key other (some zero) = (
  refl,
  ground (arith, get_or-set key other (held l key + 1) 0 l.inflight, pair_beq_iff key other),
)
acquire_lem l key other (some (suc n)) =
    let read = setdefault key 0 l.inflight in
    ground (
      arith,
      get_or-setdefault key key 0 l.inflight,
      get_or-setdefault key other 0 l.inflight,
      get_or-set key other (get_or key 0 read + 1) 0 read,
      pair_beq_iff key other,
    )

-- `release` takes one off the pair's count unless it is zero, and no other pair's count changes.
pub release_lem :
    (l : Limiter) (key other : Key)
    → held (release l key) other ≡ (if key == other then held l other - 1 else held l other)
unfolding release get_or
release_lem l key other = ground (
  arith,
  get-set key other 0 l.inflight,
  get-pop key other (set key 0 l.inflight),
  get-set key other (held l key - 1) l.inflight,
  pair_beq_iff key other,
)

-- A slot that was granted and is then released leaves every count as it was.
pub release-acquire :
    (l : Limiter) (key other : Key) (cap : Option ℕ)
    → (acquire l key cap).0 ≡ true
    → held (release (acquire l key cap).1 key) other ≡ held l other
release-acquire l key other cap granted =
    let (answer, counted) = acquire_lem l key other cap in
    ground (arith, release_lem (acquire l key cap).1 key other, counted)

-- What the gateway does to the limiter: a request that asks for a slot, or one that ends.
pub data Event : Type 0 where
  begin : Key → Event
  end : Key → Event

module _ (policy : Key → Option ℕ) where
  unfoldable pub step : Limiter → Event → Limiter
  step l (begin key) = (acquire l key (policy key)).1
  step l (end key) = release l key

  unfoldable pub run : Limiter → List Event → Limiter
  run l [] = l
  run l (e ∷ es) = run (step l e) es

  abbrev pub WithinCaps : Limiter → Type 0
  WithinCaps l = (key : Key) (cap : ℕ) → policy key ≡ some (suc cap) → held l key ≤ suc cap

  step-WithinCaps : (l : Limiter) (e : Event) → WithinCaps l → WithinCaps (step l e)
  unfolding step
  step-WithinCaps l (begin k) h key cap e =
      let (answer, counted) = acquire_lem l k key (policy k) in
      ground (arith, answer, counted, h key cap, pair_beq_iff k key)
  step-WithinCaps l (end k) h key cap e = ground (arith, release_lem l k key, h key cap)

  -- From a limiter within the caps, whatever requests begin and end in whatever order, and with
  -- releases that have no matching `acquire` too, no pair of client and instance passes its cap.
  pub run-WithinCaps : (l : Limiter) (es : List Event) → WithinCaps l → WithinCaps (run l es)
  unfolding run
  run-WithinCaps l [] h = h
  run-WithinCaps l (e ∷ es) h = run-WithinCaps (step l e) es (step-WithinCaps l e h)

  -- How many slots of the pair were granted, and how many of its requests ended.
  unfoldable pub granted : Key → Limiter → List Event → ℕ
  granted key l [] = 0
  granted key l (begin k ∷ es) =
      let rest = granted key (step l (begin k)) es in
      if (acquire l k (policy k)).0 && (k == key) then rest + 1 else rest
  granted key l (end k ∷ es) = granted key (step l (end k)) es

  unfoldable pub ended : Key → List Event → ℕ
  ended key [] = 0
  ended key (begin k ∷ es) = ended key es
  ended key (end k ∷ es) = if k == key then ended key es + 1 else ended key es

  -- No request of the pair ends that had no slot.
  unfoldable pub IsPaired : Key → Limiter → List Event → Type 0
  IsPaired key l [] = Unit
  IsPaired key l (begin k ∷ es) = IsPaired key (step l (begin k)) es
  IsPaired key l (end k ∷ es) =
      ((k == key) ≡ true → 0 < held l key) × IsPaired key (step l (end k)) es

  -- If every `release` has its granted `acquire`, a pair's count is what it was, plus the slots
  -- granted, less the requests ended: no slot leaks and none is freed twice.
  pub held-run :
      (key : Key) (l : Limiter) (es : List Event)
      → IsPaired key l es
      → held (run l es) key + ended key es ≡ held l key + granted key l es
  unfolding run granted ended IsPaired step
  held-run key l [] h = refl
  held-run key l (begin k ∷ es) h =
      let (answer, counted) = acquire_lem l k key (policy k) in
      let ih = held-run key (step l (begin k)) es h in ground (arith, counted, ih)
  held-run key l (end k ∷ es) h =
      let ih = held-run key (step l (end k)) es h.1 in ground (arith, h.0, release_lem l k key, ih)
