-- ===== src/Oidc/Keys.antt =====
-- The keys of backend/app/services/oidc.py come from the issuer's origin.
use spark_controlplane.Prelude.{
  List, ℕ, ◌≡◌, inr, refl, sym, Bool, true, false, Option, none, some, [], ◌∷◌, arith,
  if◌then◌else◌, nat_eq,
}
use spark_controlplane.Text.{Text}
use spark_controlplane.Text.Laws.{text_eq}
use spark_controlplane.Dict.{Dict, get}
use spark_controlplane.Oidc.{shown_as, Fields, field, Settings}
use spark_controlplane.Oidc.Provider.{
  Jwk, Document, Failure, Jwks, Site, World, ok, pure, or_raise, ◌>>=◌, unknown_key, crash,
}
use spark_controlplane.Oidc.Caches.{
  served, keep_keys, fetch_keys, serve_stale, refresh, jwks_keys, only_key, find_key, signing_key,
}
use spark_controlplane.Oidc.Safe.{
  Any, >>=-Safe, >>-Safe, pure-Safe, raise-Safe, gets-Safe, or_raise-Safe, lift-Safe, raise_if-Safe,
  modify-Safe, catch-Safe, Safe-weaken,
}
use spark_controlplane.Oidc.Pinned.{
  Among, IsOurs, Published, Endpoints, AllPublished, CachedKeys, IsPinned, is_pinned-IsOurs,
  AllPublished-get, signing_keys-AllPublished,
}
use spark_controlplane.Oidc.Fetches.{Fetch, Answered, get_json-Safe, discovery-Safe}

module _ (s : Settings) (w : World) where
  keep_keys-IsPinned :
      (keys : Dict Text Jwk) (now : ℕ) (p : Site)
      → AllPublished s w.outside keys
      → IsPinned s w.outside p
      → IsPinned s w.outside (keep_keys keys now p)
  keep_keys-IsPinned keys now p h x = record {
    reaches = x.reaches;
    cached_doc = x.cached_doc;
    cached_keys = h;
  }

  published :
      (url : Text) (doc : Document) (keys : List (Option Jwk))
      → IsOurs s w.outside url
      → Answered s w url doc
      → doc.keys ≡ some keys
      → (jwk : Jwk) → Among jwk keys
      → Published s w.outside jwk
  published url doc keys h (before, size, e) listed jwk m = record {
    url = url;
    before = before;
    size = size;
    doc = doc;
    ours = h;
    answered = e;
    keys = keys;
    listed = listed;
    among = m;
  }

  fetch_keys-Safe :
      (now : ℕ) (doc : Fields)
      → Endpoints s w.outside doc
      → Fetch s w (AllPublished s w.outside) (fetch_keys s w now doc)
  unfolding fetch_keys
  fetch_keys-Safe now doc h =
      let url = shown_as (field "jwks_uri" doc) in
      let ours = is_pinned-IsOurs s w.outside (field "jwks_uri" doc) h.jwks in
      >>=-Safe _ _ _ (get_json-Safe s w url (inr ours)) (λ raw a.
        >>=-Safe _ _ _ (or_raise-Safe raw.keys crash) (λ keys listed.
          let all =
            signing_keys-AllPublished s w.outside [] keys tt
              (published url raw keys ours a listed) in
          >>-Safe _ _ (raise_if-Safe _ _) (λ u some_keys.
            >>-Safe _ _ (modify-Safe _ (λ p x. keep_keys-IsPinned _ now p all x))
              (λ u v. pure-Safe _ all))))

  serve_stale-Safe :
      (now : ℕ) (cached : Option Jwks) (e : Failure)
      → CachedKeys s w.outside cached
      → Fetch s w (AllPublished s w.outside) (serve_stale s w now cached e)
  unfolding serve_stale
  serve_stale-Safe now none e h = raise-Safe e
  serve_stale-Safe now (some c) e h =
      >>-Safe _ _
        (modify-Safe _
          (λ p x. record { reaches = x.reaches; cached_doc = x.cached_doc; cached_keys = h }))
        (λ u v. >>-Safe _ _ (raise_if-Safe _ _) (λ u young. pure-Safe _ h))

  refresh-Safe :
      (now : ℕ) (cached : Option Jwks)
      → CachedKeys s w.outside cached
      → Fetch s w (AllPublished s w.outside) (refresh s w now cached)
  unfolding refresh
  refresh-Safe now cached h = >>=-Safe _ _ _ (discovery-Safe s w) (λ doc ends.
      catch-Safe _ _ (fetch_keys-Safe now doc ends) (λ e. serve_stale-Safe now cached e h))

  abbrev ServedKeys : Option (Dict Text Jwk) → Type 0
  ServedKeys none = Unit
  ServedKeys (some keys) = AllPublished s w.outside keys

  if-ServedKeys :
      (b : Bool) (keys : Dict Text Jwk)
      → AllPublished s w.outside keys
      → ServedKeys (if b then some keys else none)
  if-ServedKeys true keys h = h
  if-ServedKeys false keys h = tt

  served-ServedKeys :
      (now : ℕ) (force : Bool) (cached : Option Jwks)
      → CachedKeys s w.outside cached
      → ServedKeys (served s now force cached)
  served-ServedKeys now force none h = tt
  served-ServedKeys now force (some c) h = if-ServedKeys _ c.keys h

  choose-Safe :
      (now : ℕ) (cached : Option Jwks) (found : Option (Dict Text Jwk))
      → CachedKeys s w.outside cached
      → ServedKeys found
      → Fetch s w
          (AllPublished s w.outside)
          (elim found [ some keys ↦ pure keys | none ↦ refresh s w now cached ])
  choose-Safe now cached none h x = refresh-Safe now cached h
  choose-Safe now cached (some keys) h x = pure-Safe keys x

  pub jwks_keys-Safe : (force : Bool) → Fetch s w (AllPublished s w.outside) (jwks_keys s w force)
  unfolding jwks_keys
  jwks_keys-Safe force = >>=-Safe Any _ _ (gets-Safe _ (λ p x. tt)) (λ now u.
      >>=-Safe (CachedKeys s w.outside) _ _ (gets-Safe _ (λ p x. x.cached_keys))
        (λ cached h. choose-Safe now cached _ h (served-ServedKeys now force cached h)))

  ok_eq : (k jwk : Jwk) → ok k ≡ ok jwk → k ≡ jwk
  ok_eq k jwk e = ground arith

  only_key-Published :
      (keys : Dict Text Jwk) (jwk : Jwk)
      → AllPublished s w.outside keys
      → only_key keys ≡ ok jwk
      → Published s w.outside jwk
  only_key-Published [] jwk h e = ground arith
  only_key-Published ((kid, k) ∷ []) jwk h e = rw (sym (ok_eq k jwk e)) h.0
  only_key-Published (a ∷ b ∷ rest) jwk h e = ground arith

  retry_key-Safe :
      (kid : Text) (found : Option Jwk)
      → ((jwk : Jwk) → found ≡ some jwk → Published s w.outside jwk)
      → Fetch s w (Published s w.outside) (elim found [
        | some jwk ↦ pure jwk
        | none ↦ (do keys ← jwks_keys s w true; or_raise (get kid keys) unknown_key)
      ])
  retry_key-Safe kid (some jwk) h = pure-Safe jwk (h jwk refl)
  retry_key-Safe kid none h = >>=-Safe _ _ _ (jwks_keys-Safe true) (λ keys all.
      Safe-weaken _ _ (λ jwk e. AllPublished-get s w.outside kid jwk keys all e)
        (or_raise-Safe (get kid keys) unknown_key))

  find_key-Safe : (kid : Option Text) → Fetch s w (Published s w.outside) (find_key s w kid)
  unfolding find_key
  find_key-Safe none = >>=-Safe _ _ _ (jwks_keys-Safe false) (λ keys h.
      Safe-weaken _ _ (λ jwk e. only_key-Published keys jwk h e) (lift-Safe (only_key keys)))
  find_key-Safe (some kid) = >>=-Safe _ _ _ (jwks_keys-Safe false) (λ keys h.
      retry_key-Safe kid (get kid keys) (λ jwk e. AllPublished-get s w.outside kid jwk keys h e))

  -- The key that a token is checked with is built from a published one for the token's algorithm.
  pub signing_key-Safe :
      (kid : Option Text) (alg : Text)
      → Fetch s w
          (λ key. (jwk : Jwk) × Published s w.outside jwk × (w.build_key jwk alg ≡ some key))
          (signing_key s w kid alg)
  unfolding signing_key
  signing_key-Safe kid alg =
      >>=-Safe _ _ _ (find_key-Safe kid) (λ jwk h.
        Safe-weaken _ _ (λ key e. (jwk, h, e)) (or_raise-Safe (w.build_key jwk alg) crash))
