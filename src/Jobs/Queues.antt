-- ===== src/Jobs/Queues.antt =====
-- What the subscribers of a job learn, in jobs.py.
use spark_controlplane.Prelude.{
  ℕ, ◌≤◌, ◌≡◌, ◌⊎◌, refl, sym, ap, true, List, [], ◌∷◌, ◌++◌, All, length, length-append, arith,
  leb, Bool-cases, inl, inr,
}
use spark_controlplane.Jobs.{
  JobStatus, Event, status_is, end, is_terminal, rest_of, offer, publish, finished,
}

-- A queue that ends with these two events.
abbrev pub EndsWith : Event → Event → List Event → Type 0
EndsWith a b q = (before : List Event) × (q ≡ before ++ a ∷ b ∷ [])

-- A terminal event comes last in the queue, which keeps its bound.
offer-terminal :
    (maxsize : ℕ) (e : Event) (q : List Event)
    → is_terminal e ≡ true
    → 1 ≤ maxsize
    → length q ≤ maxsize
    → (length (offer maxsize e q) ≤ maxsize)
      × ((offer maxsize e q ≡ q ++ e ∷ []) ⊎ (offer maxsize e q ≡ rest_of q ++ e ∷ []))
unfolding offer
offer-terminal maxsize e [] t one h = ground arith
offer-terminal maxsize e (f ∷ q) t one h =
    ground (arith, length-append q (e ∷ []), length-append (f ∷ q) (e ∷ []))

append_two : (q : List Event) (a b : Event) → (q ++ a ∷ []) ++ b ∷ [] ≡ q ++ a ∷ b ∷ []
append_two [] a b = refl
append_two (e ∷ q) a b = ap (λ r. e ∷ r) (append_two q a b)

-- A second terminal event leaves the first one in place, in a queue of two places or more.
offer-EndsWith :
    (maxsize : ℕ) (a : Event) (q : List Event)
    → 2 ≤ maxsize
    → length (q ++ a ∷ []) ≤ maxsize
    → EndsWith a end (offer maxsize end (q ++ a ∷ []))
unfolding offer
offer-EndsWith maxsize a [] two h = ([], ground arith)
offer-EndsWith maxsize a (e ∷ q) two h =
    elim (Bool-cases (leb maxsize (length ((e ∷ q) ++ a ∷ [])))) [
      | inl full ↦ (q, ground (arith, append_two q a end))
      | inr room ↦ (e ∷ q, ground (arith, append_two q a end))
    ]

finished_one :
    (maxsize : ℕ) (status : JobStatus) (q : List Event)
    → 2 ≤ maxsize
    → length q ≤ maxsize
    → (length (offer maxsize end (offer maxsize (status_is status) q)) ≤ maxsize)
      × EndsWith (status_is status) end (offer maxsize end (offer maxsize (status_is status) q))
finished_one maxsize status q two h =
    let s : Event = status_is status in
    let (bound, first) = offer-terminal maxsize s q refl (omega (arith, two)) h in
    let last : (length (offer maxsize end (offer maxsize s q)) ≤ maxsize) =
      (offer-terminal maxsize end (offer maxsize s q) refl (omega (arith, two)) bound).0 in
    (
      last,
      elim first [
        | inl e ↦ rw e (offer-EndsWith maxsize s q two (rw (sym e) bound))
        | inr e ↦ rw e (offer-EndsWith maxsize s (rest_of q) two (rw (sym e) bound))
      ],
    )

-- When a job is finished, the queue of every subscriber, full or not, ends with its last status
-- and the end, and keeps its bound, if that is two or more.
pub finished-EndsWith :
    (maxsize : ℕ) (status : JobStatus) (queues : List (List Event))
    → 2 ≤ maxsize
    → All (λ q. length q ≤ maxsize) queues
    → All
        (λ q. (length q ≤ maxsize) × EndsWith (status_is status) end q)
        (finished maxsize status queues)
unfolding finished publish
finished-EndsWith maxsize status [] two h = tt
finished-EndsWith maxsize status (q ∷ queues) two (h, hs) =
    (finished_one maxsize status q two h, finished-EndsWith maxsize status queues two hs)
