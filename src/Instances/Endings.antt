-- ===== src/Instances/Endings.antt =====
-- How an action ends: what holds of its result together with the state that it leaves.
use spark_controlplane.Portal.{
  Failure, Portal, Result, Action, raise, lift, ◌>>=◌, attempt, ok, err,
}
use spark_controlplane.Instances.Frames.{Keeps}

-- What holds of the result and the state in which `m` ends, from any state with `P`.
pub record Ends {A : Type 0} (P : Portal → Type 0) (Q : Result A → Portal → Type 0) (m : Action A)
    : Type 0 where
  pub ends : (p : Portal) → P p → Q (m p).0 (m p).1

module _ {P : Portal → Type 0} {A B : Type 0} {Q : Result B → Portal → Type 0} where
  bind_ends :
      (r : Result A) (q : Portal) (f : A → Action B)
      → P q
      → ((a : A) → Ends P Q (f a))
      → ((e : Failure) (q : Portal) → P q → Q (err e) q)
      → Q ((lift r >>= f) q).0 ((lift r >>= f) q).1
  unfolding lift ◌>>=◌ raise
  bind_ends (ok a) q f h k j = (k a).ends q h
  bind_ends (err e) q f h k j = j e q h

  -- A bind: the first part keeps `P`, the second ends in `Q`, as does a raise.
  pub >>=-Ends :
      (m : Action A) (f : A → Action B)
      → Keeps P m
      → ((a : A) → Ends P Q (f a))
      → ((e : Failure) (q : Portal) → P q → Q (err e) q)
      → Ends P Q (m >>= f)
  unfolding ◌>>=◌ lift
  >>=-Ends m f h k j = record { ends = λ p x. bind_ends (m p).0 (m p).1 f (h.kept p x) k j }

module _ {A B : Type 0} {Q : Result B → Portal → Type 0} (R : Result A → Portal → Type 0) where
  then_ends :
      (r : Result A) (q : Portal) (f : A → Action B)
      → R r q
      → ((a : A) → Ends (R (ok a)) Q (f a))
      → ((e : Failure) (q : Portal) → R (err e) q → Q (err e) q)
      → Q ((lift r >>= f) q).0 ((lift r >>= f) q).1
  unfolding lift ◌>>=◌ raise
  then_ends (ok a) q f h k j = (k a).ends q h
  then_ends (err e) q f h k j = j e q h

  -- A bind, with what holds between its parts.
  pub between-Ends :
      {P : Portal → Type 0} (m : Action A) (f : A → Action B)
      → Ends P R m
      → ((a : A) → Ends (R (ok a)) Q (f a))
      → ((e : Failure) (q : Portal) → R (err e) q → Q (err e) q)
      → Ends P Q (m >>= f)
  unfolding ◌>>=◌ lift
  between-Ends m f h k j = record { ends = λ p x. then_ends (m p).0 (m p).1 f (h.ends p x) k j }

module _ {A : Type 0} {Q : Result A → Portal → Type 0} (R : Result A → Portal → Type 0) where
  attempt_ends :
      (r : Result A) (q : Portal) (handler : Failure → Action A)
      → R r q
      → ((a : A) (q : Portal) → R (ok a) q → Q (ok a) q)
      → ((e : Failure) → Ends (R (err e)) Q (handler e))
      → Q (attempt (lift r) handler q).0 (attempt (lift r) handler q).1
  unfolding lift attempt
  attempt_ends (ok a) q handler h k j = k a q h
  attempt_ends (err e) q handler h k j = (j e).ends q h

  -- A `try` whose body ends in `R`.
  pub attempt-Ends :
      {P : Portal → Type 0} (m : Action A) (handler : Failure → Action A)
      → Ends P R m
      → ((a : A) (q : Portal) → R (ok a) q → Q (ok a) q)
      → ((e : Failure) → Ends (R (err e)) Q (handler e))
      → Ends P Q (attempt m handler)
  unfolding attempt lift
  attempt-Ends m handler h k j = record {
    ends = λ p x. attempt_ends (m p).0 (m p).1 handler (h.ends p x) k j;
  }

-- What is kept is so however the action ends.
pub Keeps-Ends :
    {A : Type 0} {P : Portal → Type 0} (m : Action A) → Keeps P m → Ends P (λ r q. P q) m
Keeps-Ends m h = record { ends = λ p x. h.kept p x }
