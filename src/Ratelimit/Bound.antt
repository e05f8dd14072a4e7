-- ===== src/Ratelimit/Bound.antt =====
-- What the sliding window of ratelimit.py promises: at most the cap in any minute, and a
-- `retry_after` that is honest.
use spark_controlplane.Prelude.{
  ℕ, suc, ◌+◌, ◌*◌, ◌≤◌, ◌<◌, ◌≡◌, refl, ap, ◌∙◌, String, Bool, true, ◌&&◌, some, List, [], ◌∷◌,
  ◌++◌, arith, length, length-append, keep_if, leb, ltb, string_eq, Bool-cases, inl, inr,
  if◌then◌else◌,
}
use mathlib.Core.List.{append_assoc, append-nil}
use spark_controlplane.Dict.{get_or}
use spark_controlplane.Dict.Laws.{get_or-set_self}
use spark_controlplane.Ratelimit.{
  Limiter, Outcome, passed, limit_error, second, prune, retry, admit, check_rate,
}
use spark_controlplane.Ratelimit.Rate.{
  recent, Rising, admitted, admitted_spec, admitted-eq-spec, keep_if-append, admit_full, admit_free,
}

-- The request at `t` was made at or before `now`, and in the 60 seconds up to it.
abbrev pub within : ℕ → ℕ → Bool
within now t = leb t now && recent now t

length-within-le :
    (now t : ℕ) (ts : List ℕ)
    → t ≤ now
    → length (keep_if (within now) ts) ≤ length (keep_if (recent t) ts)
length-within-le now t [] h = omega arith
length-within-le now t (u ∷ ts) h = ground (arith, length-within-le now t ts h)

length-within-snoc :
    (now t : ℕ) (ts : List ℕ)
    → length (keep_if (within now) (ts ++ t ∷ []))
      ≡ length (keep_if (within now) ts) + (if within now t then 1 else 0)
length-within-snoc now t ts = ground (
  arith,
  keep_if-append (within now) ts (t ∷ []),
  length-append (keep_if (within now) ts) (keep_if (within now) (t ∷ [])),
)

module _ (cap : ℕ) (client : String) (now : ℕ) where
  admitted_spec-bounded :
      (history ts : List ℕ)
      → length (keep_if (within now) history) ≤ suc cap
      → length (keep_if (within now) (history ++ admitted_spec cap client history ts)) ≤ suc cap
  unfolding admitted_spec
  admitted_spec-bounded history [] h = rw append-nil h
  admitted_spec-bounded history (t ∷ ts) h =
      elim (Bool-cases (ltb (length (keep_if (recent t) history)) (suc cap))) [
        | inl room ↦
            let fits : length (keep_if (within now) (history ++ t ∷ [])) ≤ suc cap =
              ground (arith, length-within-snoc now t history, length-within-le now t history) in
            rw room (rw append_assoc at (admitted_spec-bounded (history ++ t ∷ []) ts fits))
        | inr full ↦ rw full (admitted_spec-bounded history ts h)
      ]

  -- Of requests that arrive in the order of their times at a client with an empty window, the
  -- limiter admits at most the cap in any period of 60 seconds.
  pub admitted-bounded :
      (l : Limiter) (ts : List ℕ)
      → get_or client [] l.recent ≡ []
      → Rising cap client 0 ts
      → length (keep_if (within now) (admitted cap client l ts)) ≤ suc cap
  admitted-bounded l ts e rising =
      rw (admitted-eq-spec cap client l ts e rising) (admitted_spec-bounded [] ts (omega arith))

length-prune-le : (now : ℕ) (ts : List ℕ) → length (prune now ts) ≤ length ts
unfolding prune
length-prune-le now [] = omega arith
length-prune-le now (t ∷ ts) = ground (arith, length-prune-le now ts)

prune_front : (now t : ℕ) (ts rest : List ℕ) → prune now ts ≡ t ∷ rest → now ≤ t + 60 * second
unfolding prune
prune_front now t [] rest e = ground arith
prune_front now t (u ∷ ts) rest e = ground (arith, prune_front now t ts rest)

-- The wait is long enough for the oldest request of the window to leave it.
retry_outlasts : (now t : ℕ) (rest : List ℕ) → t + 60 * second < now + retry now (t ∷ rest) * second
unfolding retry
retry_outlasts now t rest = omega arith

module _ (cap : ℕ) (client : String) where
  abbrev pub again : Limiter → ℕ → Outcome
  again l now = (check_rate l client (some (suc cap)) now).0

  passed-ne-limit_error : (r : ℕ) → passed ≡ limit_error (suc cap) client r → ⊥
  passed-ne-limit_error r e = cc

  admit_later :
      (now : ℕ) (rest : List ℕ) (t : ℕ)
      → t + 60 * second < now
      → length rest ≤ cap
      → (admit (suc cap) client now (t ∷ rest)).0 ≡ passed
  unfolding admit prune
  admit_later now rest t old few = ground (arith, length-prune-le now rest)

  admit_again :
      (now r : ℕ) (window : List ℕ)
      → length window ≤ suc cap
      → (admit (suc cap) client now window).0 ≡ limit_error (suc cap) client r
      → (admit (suc cap) client (now + r * second) (admit (suc cap) client now window).1).0 ≡ passed
  admit_again now r window few refused =
      elim (Bool-cases (leb (suc cap) (length (prune now window)))) [
        | inl full ↦ rw (admit_full cap client now window full) (wait (prune now window) refl full)
        | inr free ↦
            absurd (passed-ne-limit_error r (ground (arith, admit_free cap client now window free)))
      ]
    where
      wait :
          (kept : List ℕ)
          → prune now window ≡ kept
          → leb (suc cap) (length kept) ≡ true
          → (admit (suc cap) client (now + r * second) kept).0 ≡ passed
      wait [] e full = ground arith
      wait (t ∷ rest) e full =
          let told : r ≡ retry now (t ∷ rest) =
            ground (arith, admit_full cap client now window (rw e full)) in
          let few_rest : length rest ≤ cap = ground (arith, length-prune-le now window) in
          admit_later (now + r * second) rest t (rw told (retry_outlasts now t rest)) few_rest

  -- A client whose window is within the cap and that is refused with `retry_after = r` is
  -- admitted `r` seconds later, if it asks for nothing before.
  pub retry_suffices :
      (l : Limiter) (now r : ℕ)
      → length (get_or client [] l.recent) ≤ suc cap
      → again l now ≡ limit_error (suc cap) client r
      → again (check_rate l client (some (suc cap)) now).1 (now + r * second) ≡ passed
  unfolding check_rate
  retry_suffices l now r few refused =
      let window = get_or client [] l.recent in
      let later = λ (w : List ℕ). (admit (suc cap) client (now + r * second) w).0 in
      let kept = (admit (suc cap) client now window).1 in
      ap later (get_or-set_self client kept [] l.recent) ∙ admit_again now r window few refused
