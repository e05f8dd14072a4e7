-- ===== src/Gwstats/Conservation.antt =====
-- No request is lost or counted twice between the windows and the totals of gwstats.py.
use spark_controlplane.Prelude.{
  ◌+◌, ◌≡◌, refl, sym, ◌∙◌, ap, List, [], ◌∷◌, ◌++◌, arith, string_eq, pair_eq, if◌then◌else◌,
  pair_beq, pair_beq_iff, Bool-cases, inl, inr,
}
use spark_controlplane.Dict.{Dict, get, get_or}
use spark_controlplane.Dict.Laws.{get_or-set}
use spark_controlplane.Gwstats.{
  RequestRecord, Bucket, no_requests, Key, Stats, count_in, count_for, record_request, drain,
  new_stats,
}

abbrev pub plus : Bucket → Bucket → Bucket
plus a b = record {
  requests = a.requests + b.requests;
  errors = a.errors + b.errors;
  rejected = a.rejected + b.rejected;
  prompt_tokens = a.prompt_tokens + b.prompt_tokens;
  completion_tokens = a.completion_tokens + b.completion_tokens;
  duration_ms_total = a.duration_ms_total + b.duration_ms_total;
  ttfb_ms_total = a.ttfb_ms_total + b.ttfb_ms_total;
  ttfb_count = a.ttfb_count + b.ttfb_count;
}

-- What reaches the counters.
pub data Event : Type 0 where
  request : (r : RequestRecord) → Event
  window_end : Event

-- The windows that were drained, oldest first, and the counters.
unfoldable pub run : List Event → List (Dict Key Bucket) × Stats → List (Dict Key Bucket) × Stats
unfolding record_request drain
run [] (windows, s) = (windows, s)
run (request r ∷ es) (windows, s) = run es (windows, record_request r s)
run (window_end ∷ es) (windows, s) =
    let (drained, s') = drain s in run es (windows ++ drained ∷ [], s')

abbrev pub sum_of : Key → List (Dict Key Bucket) → Bucket
sum_of key [] = no_requests
sum_of key (w ∷ windows) = plus (get_or key no_requests w) (sum_of key windows)

plus-count_in : (r : RequestRecord) (a b : Bucket) → plus a (count_in r b) ≡ count_in r (plus a b)
unfolding count_in
plus-count_in r a b = ground arith

plus_assoc : (a b c : Bucket) → plus (plus a b) c ≡ plus a (plus b c)
plus_assoc a b c = ground arith

plus_zero : (a : Bucket) → plus a no_requests ≡ a
plus_zero a = ground arith

sum_of-append :
    (key : Key) (windows : List (Dict Key Bucket)) (w : Dict Key Bucket)
    → sum_of key (windows ++ w ∷ []) ≡ plus (sum_of key windows) (get_or key no_requests w)
sum_of-append key [] w = ground arith
sum_of-append key (v ∷ windows) w =
    rw (sum_of-append key windows w)
      (sym (plus_assoc (get_or key no_requests v) (sum_of key windows) (get_or key no_requests w)))

-- The totals of a key are those of its drained windows and of the open one.
abbrev pub Balances : Key → List (Dict Key Bucket) × Stats → Type 0
Balances key (windows, s) =
    get_or key no_requests s.totals ≡ plus (sum_of key windows) (get_or key no_requests s.buckets)

get_or-count_for :
    (key : Key) (r : RequestRecord) (d : Dict Key Bucket)
    → get_or key no_requests (count_for r d) ≡ (
        if pair_beq (r.client, r.model) key
        then count_in r (get_or key no_requests d)
        else get_or key no_requests d)
unfolding count_for
get_or-count_for key r d =
    let k : Key = (r.client, r.model) in
    let count = count_in r (get_or k no_requests d) in
    elim (Bool-cases (pair_beq k key)) [
      | inl e ↦
          rw (get_or-set k key count no_requests d, e)
            (ap (λ (j : Key). count_in r (get_or j no_requests d)) ((pair_beq_iff k key).0 e))
      | inr e ↦ rw (get_or-set k key count no_requests d, e) refl
    ]

record_request-Balances :
    (key : Key) (r : RequestRecord) (windows : List (Dict Key Bucket)) (s : Stats)
    → Balances key (windows, s)
    → Balances key (windows, record_request r s)
unfolding record_request
record_request-Balances key r windows s h =
    rw (get_or-count_for key r s.totals, get_or-count_for key r s.buckets)
      (elim (Bool-cases (pair_beq (r.client, r.model) key)) [
        | inl e ↦ rw e (
            ap (λ (b : Bucket). count_in r b) h
            ∙ sym (plus-count_in r (sum_of key windows) (get_or key no_requests s.buckets)))
        | inr e ↦ rw e h
      ])

run-Balances :
    (key : Key) (es : List Event) (windows : List (Dict Key Bucket)) (s : Stats)
    → Balances key (windows, s)
    → Balances key (run es (windows, s))
unfolding run drain get_or get
run-Balances key [] windows s h = h
run-Balances key (request r ∷ es) windows s h =
    run-Balances key es windows (record_request r s) (record_request-Balances key r windows s h)
run-Balances key (window_end ∷ es) windows s h =
    run-Balances key es (windows ++ s.buckets ∷ []) (record s { buckets = [] })
      (h
        ∙ sym (
            plus_zero (sum_of key (windows ++ s.buckets ∷ []))
            ∙ sum_of-append key windows s.buckets))

-- Whatever requests are recorded and windows drained, from new counters, the totals of a client
-- and model are the sums over its drained windows and the open one, in all eight counters.
pub get_or-run :
    (key : Key) (es : List Event)
    → let (windows, s) = run es ([], new_stats) in
      get_or key no_requests s.totals ≡ plus (sum_of key windows) (get_or key no_requests s.buckets)
unfolding get_or get
get_or-run key es = run-Balances key es [] new_stats refl
