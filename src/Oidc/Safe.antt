-- ===== src/Oidc/Safe.antt =====
-- What an action of backend/app/services/oidc.py keeps, and what holds of a result that it returns.
use spark_controlplane.Prelude.{Bool, true, false, Option, none, some, ◌≡◌, refl}
use spark_controlplane.Oidc.Provider.{
  Failure, Site, Result, ok, err, Action, pure, raise, gets, or_raise, ◌>>=◌, ◌>>◌, raise_if,
  modify, catch, crash,
}
use spark_controlplane.Oidc.Caches.{lift}

-- However it ended, the state has `P`, and a result `Q`.
abbrev pub Good : {A : Type 0} → (Site → Type 0) → (A → Type 0) → Result A → Site → Type 0
Good P Q (ok a) p = Q a × P p
Good P Q (err e) p = P p

pub record Safe {A : Type 0} (P : Site → Type 0) (Q : A → Type 0) (m : Action A) : Type 0 where
  pub safe : (p : Site) → P p → Good P Q (m p).0 (m p).1

abbrev pub Any : {A : Type 0} → A → Type 0
Any a = Unit

module _ {P : Site → Type 0} where
  bind-Good :
      {A B : Type 0} {Q : A → Type 0} {R : B → Type 0} (r : Result A) (q : Site) (f : A → Action B)
      → Good P Q r q
      → ((a : A) → Q a → Safe P R (f a))
      → Good P R ((lift r >>= f) q).0 ((lift r >>= f) q).1
  unfolding ◌>>=◌
  bind-Good (ok a) q f (x, h) k = (k a x).safe q h
  bind-Good (err e) q f h k = h

  pub >>=-Safe :
      {A B : Type 0} (Q : A → Type 0) {R : B → Type 0} (m : Action A) (f : A → Action B)
      → Safe P Q m
      → ((a : A) → Q a → Safe P R (f a))
      → Safe P R (m >>= f)
  unfolding ◌>>=◌
  >>=-Safe Q m f h k = record { safe = λ p x. bind-Good (m p).0 (m p).1 f (h.safe p x) k }

  pub >>-Safe :
      {A B : Type 0} {Q : A → Type 0} {R : B → Type 0} (m : Action A) (n : Action B)
      → Safe P Q m
      → ((a : A) → Q a → Safe P R n)
      → Safe P R (m >> n)
  unfolding ◌>>◌
  >>-Safe m n h k = >>=-Safe _ m (λ _. n) h k

  pub pure-Safe : {A : Type 0} {Q : A → Type 0} (a : A) → Q a → Safe P Q (pure a)
  unfolding pure
  pure-Safe a x = record { safe = λ p h. (x, h) }

  pub raise-Safe : {A : Type 0} {Q : A → Type 0} (e : Failure) → Safe P Q (raise {A = A} e)
  unfolding raise
  raise-Safe e = record { safe = λ p h. h }

  pub gets-Safe :
      {A : Type 0} {Q : A → Type 0} (f : Site → A)
      → ((p : Site) → P p → Q (f p))
      → Safe P Q (gets f)
  unfolding gets
  gets-Safe f k = record { safe = λ p h. (k p h, h) }

  pub or_raise-Safe :
      {A : Type 0} (found : Option A) (e : Failure)
      → Safe P (λ a. found ≡ some a) (or_raise found e)
  unfolding or_raise
  or_raise-Safe none e = raise-Safe e
  or_raise-Safe (some a) e = pure-Safe a refl

  pub lift-Safe : {A : Type 0} (r : Result A) → Safe P (λ a. r ≡ ok a) (lift r)
  lift-Safe (ok a) = record { safe = λ p h. (refl, h) }
  lift-Safe (err e) = record { safe = λ p h. h }

  pub raise_if-Safe : (c : Bool) (e : Failure) → Safe P (λ u. c ≡ false) (raise_if c e)
  unfolding raise_if
  raise_if-Safe true e = record { safe = λ p h. h }
  raise_if-Safe false e = record { safe = λ p h. (refl, h) }

  pub modify-Safe : (f : Site → Site) → ((p : Site) → P p → P (f p)) → Safe P Any (modify f)
  unfolding modify
  modify-Safe f k = record { safe = λ p h. (tt, k p h) }

  catch-Good :
      {A : Type 0} {Q : A → Type 0} (r : Result A) (q : Site) (handler : Failure → Action A)
      → Good P Q r q
      → ((e : Failure) → Safe P Q (handler e))
      → Good P Q (catch (lift r) handler q).0 (catch (lift r) handler q).1
  unfolding catch
  catch-Good (ok a) q handler h k = h
  catch-Good (err crash) q handler h k = h
  catch-Good (err e) q handler h k = (k e).safe q h

  pub catch-Safe :
      {A : Type 0} {Q : A → Type 0} (m : Action A) (handler : Failure → Action A)
      → Safe P Q m
      → ((e : Failure) → Safe P Q (handler e))
      → Safe P Q (catch m handler)
  unfolding catch
  catch-Safe m handler h k = record {
    safe = λ p x. catch-Good (m p).0 (m p).1 handler (h.safe p x) k;
  }

-- A weaker statement of the result.
weaken-Good :
    (P : Site → Type 0) {A : Type 0} {Q R : A → Type 0} (r : Result A) (q : Site)
    → ((a : A) → Q a → R a)
    → Good P Q r q
    → Good P R r q
weaken-Good P (ok a) q k (x, h) = (k a x, h)
weaken-Good P (err e) q k h = h

pub Safe-weaken :
    {P : Site → Type 0} {A : Type 0} (Q : A → Type 0) {R : A → Type 0} (m : Action A)
    → ((a : A) → Q a → R a)
    → Safe P Q m
    → Safe P R m
Safe-weaken {P = P} Q m k h = record { safe = λ p x. weaken-Good P (m p).0 (m p).1 k (h.safe p x) }
