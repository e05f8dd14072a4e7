-- ===== src/Ratelimit/Rate.antt =====
-- The sliding window of ratelimit.py, against a specification that forgets no admitted request.
use spark_controlplane.Prelude.{
  ℕ, suc, ◌+◌, ◌*◌, ◌≤◌, ◌≡◌, refl, ap, ◌∙◌, String, Bool, true, false, some, List, [], ◌∷◌, ◌++◌,
  arith, length, All, keep_if, leb, ltb, string_eq, if◌then◌else◌, Bool-cases, inl, inr,
}
use spark_controlplane.Dict.{set, get_or}
use spark_controlplane.Dict.Laws.{get_or-set_self}
use spark_controlplane.Ratelimit.{
  Limiter, Outcome, passed, limit_error, second, prune, retry, admit, check_rate,
}

-- The request at `t` lies in the 60 seconds up to `now`.
abbrev pub recent : ℕ → ℕ → Bool
recent now t = leb now (t + 60 * second)

-- The times rise, and the last is at most `now`.
abbrev pub IsOrdered : List ℕ → ℕ → Type 0
IsOrdered [] now = Unit
IsOrdered (t ∷ ts) now = (t ≤ now) × All (λ u. t ≤ u) ts × IsOrdered ts now

keep-recent-All :
    (now t : ℕ) (ts : List ℕ)
    → All (λ u. t ≤ u) ts
    → now ≤ t + 60 * second
    → keep_if (recent now) ts ≡ ts
keep-recent-All now t [] h fresh = refl
keep-recent-All now t (u ∷ us) h fresh = ground (arith, keep-recent-All now t us h.1 fresh)

-- On rising times the loop that looks at the front alone drops every request that is too old.
prune-eq-keep_if :
    (now : ℕ) (ts : List ℕ) → IsOrdered ts now → prune now ts ≡ keep_if (recent now) ts
unfolding prune
prune-eq-keep_if now [] h = refl
prune-eq-keep_if now (t ∷ ts) h =
    ground (arith, prune-eq-keep_if now ts h.2, keep-recent-All now t ts h.1)

keep-recent-keep-recent :
    (before now : ℕ) (ts : List ℕ)
    → before ≤ now
    → keep_if (recent now) (keep_if (recent before) ts) ≡ keep_if (recent now) ts
keep-recent-keep-recent before now [] h = refl
keep-recent-keep-recent before now (t ∷ ts) h =
    ground (arith, keep-recent-keep-recent before now ts h)

pub keep_if-append :
    (p : ℕ → Bool) (xs ys : List ℕ) → keep_if p (xs ++ ys) ≡ keep_if p xs ++ keep_if p ys
keep_if-append p [] ys = refl
keep_if-append p (x ∷ xs) ys = ground (arith, keep_if-append p xs ys)

All-weaken : (t u : ℕ) (ts : List ℕ) → All (λ x. t ≤ x) ts → t ≤ u → All (λ x. t ≤ x) (ts ++ u ∷ [])
All-weaken t u [] h le = (le, tt)
All-weaken t u (x ∷ ts) h le = (h.0, All-weaken t u ts h.1 le)

IsOrdered-later : (ts : List ℕ) (t u : ℕ) → t ≤ u → IsOrdered ts t → IsOrdered ts u
IsOrdered-later [] t u le h = tt
IsOrdered-later (x ∷ ts) t u le h = (omega arith, h.1, IsOrdered-later ts t u le h.2)

IsOrdered-snoc : (ts : List ℕ) (now : ℕ) → IsOrdered ts now → IsOrdered (ts ++ now ∷ []) now
IsOrdered-snoc [] now h = (omega arith, tt, tt)
IsOrdered-snoc (t ∷ ts) now h = (h.0, All-weaken t now ts h.1 h.0, IsOrdered-snoc ts now h.2)

IsOrdered-prune : (now : ℕ) (ts : List ℕ) → IsOrdered ts now → IsOrdered (prune now ts) now
unfolding prune
IsOrdered-prune now [] h = tt
IsOrdered-prune now (t ∷ ts) h = elim (Bool-cases (ltb (t + 60 * second) now)) [
  | inl old ↦ rw old (IsOrdered-prune now ts h.2)
  | inr fresh ↦ rw fresh h
]

-- The limiter's window of a client, as of `last`: of the admitted requests, the recent ones.
record Tracks (window history : List ℕ) (last : ℕ) : Type 0 where
  ordered : IsOrdered window last
  recall : window ≡ keep_if (recent last) history

abbrev pub passes : Outcome → Bool
passes passed = true
passes (limit_error n client r) = false

module _ (cap : ℕ) (client : String) where
  -- The requests of `client` that are admitted, of those that arrive at the given times.
  unfoldable pub admitted : Limiter → List ℕ → List ℕ
  admitted l [] = []
  admitted l (t ∷ ts) =
      let (outcome, l') = check_rate l client (some (suc cap)) t in
      let rest = admitted l' ts in if passes outcome then t ∷ rest else rest

  -- The specification keeps every admitted request: one more is admitted exactly if fewer than
  -- the cap were admitted in the 60 seconds before.
  unfoldable pub admitted_spec : List ℕ → List ℕ → List ℕ
  admitted_spec history [] = []
  admitted_spec history (t ∷ ts) =
      let more = t ∷ admitted_spec (history ++ t ∷ []) ts in
      let rest = admitted_spec history ts in
      if ltb (length (keep_if (recent t) history)) (suc cap) then more else rest

  abbrev pub Rising : ℕ → List ℕ → Type 0
  Rising last [] = Unit
  Rising last (t ∷ ts) = (last ≤ t) × Rising t ts

  module _ (window history : List ℕ) (last now : ℕ) (le : last ≤ now)
      (tracks : Tracks window history last) where
    prune-Tracks : Tracks (prune now window) history now
    prune-Tracks =
        let ordered = IsOrdered-later window last now le tracks.ordered in
        record {
          ordered = IsOrdered-prune now window ordered;
          recall =
              prune-eq-keep_if now window ordered
              ∙ ap (keep_if (recent now)) tracks.recall
              ∙ keep-recent-keep-recent last now history le;
        }

    snoc-Tracks : Tracks (prune now window ++ now ∷ []) (history ++ now ∷ []) now
    snoc-Tracks = record {
      ordered = IsOrdered-snoc (prune now window) now (prune-Tracks.ordered);
      recall = ground (arith, keep_if-append (recent now) history (now ∷ []), prune-Tracks.recall);
    }

  pub admit_full :
      (t : ℕ) (window : List ℕ)
      → leb (suc cap) (length (prune t window)) ≡ true
      → admit (suc cap) client t window
        ≡ (limit_error (suc cap) client (retry t (prune t window)), prune t window)
  unfolding admit
  admit_full t window full = rw full

  pub admit_free :
      (t : ℕ) (window : List ℕ)
      → leb (suc cap) (length (prune t window)) ≡ false
      → admit (suc cap) client t window ≡ (passed, prune t window ++ t ∷ [])
  unfolding admit
  admit_free t window free = rw free

  admitted-eq-spec_from :
      (l : Limiter) (window history : List ℕ) (last : ℕ) (ts : List ℕ)
      → get_or client [] l.recent ≡ window
      → Tracks window history last
      → Rising last ts
      → admitted l ts ≡ admitted_spec history ts
  unfolding admitted admitted_spec check_rate
  admitted-eq-spec_from l window history last [] e tracks rising = refl
  admitted-eq-spec_from l window history last (t ∷ ts) e tracks rising =
      let kept = prune-Tracks window history last t rising.0 tracks in
      let recall = kept.recall in
      elim (Bool-cases (leb (suc cap) (length (prune t window)))) [
        | inl full ↦
            let over : ltb (length (keep_if (recent t) history)) (suc cap) ≡ false =
              rw (← recall) (ground arith) in
            rw (e, admit_full t window full, over)
              (admitted-eq-spec_from (record l { recent = set client (prune t window) l.recent })
                (prune t window) history t ts (get_or-set_self client (prune t window) [] l.recent)
                kept rising.1)
        | inr free ↦
            let under : ltb (length (keep_if (recent t) history)) (suc cap) ≡ true =
              rw (← recall) (ground arith) in
            rw (e, admit_free t window free, under)
              (ap (◌∷◌ t) (
                admitted-eq-spec_from
                  (record l { recent = set client (prune t window ++ t ∷ []) l.recent })
                  (prune t window ++ t ∷ []) (history ++ t ∷ []) t ts
                  (get_or-set_self client (prune t window ++ t ∷ []) [] l.recent)
                  (snoc-Tracks window history last t rising.0 tracks) rising.1))
      ]

  -- For requests in the order of their times, from an empty window, the limiter admits exactly
  -- those that the specification admits, which keeps every admitted request and admits one more
  -- if fewer than the cap were admitted in the 60 seconds before: forgetting what left the window
  -- changes no answer.
  pub admitted-eq-spec :
      (l : Limiter) (ts : List ℕ)
      → get_or client [] l.recent ≡ []
      → Rising 0 ts
      → admitted l ts ≡ admitted_spec [] ts
  admitted-eq-spec l ts e rising =
      admitted-eq-spec_from l [] [] 0 ts e (record { ordered = tt; recall = refl }) rising
