-- ===== src/Endpoints/Invariant.antt =====
-- The tables of endpoints under any series of requests.
use spark_controlplane.Prelude.{
  ◌≡◌, refl, String, Bool, true, false, Option, none, some, List, [], ◌∷◌, ◌++◌, All-map,
  any-append, arith, nat_beq_iff, ◌==◌, nat_eq, if◌then◌else◌,
}
use spark_controlplane.Portal.{EndpointRow, Portal}
use spark_controlplane.Text.{Text}
use spark_controlplane.Endpoints.{entries, Parsed}
use spark_controlplane.Endpoints.Answers.{
  Answer, answered, refused, ◌>>=◌, name_exists, integrity_error, needs_upstream_port, still_served,
}
use spark_controlplane.Endpoints.Requests.{
  set_aliases, next_endpoint_id, save, load, EndpointIn, EndpointUpdate, create_endpoint,
  update_endpoint, upload_tls, delete_endpoint, apply_cert, new_endpoint, patched,
}
use spark_controlplane.Endpoints.Tables.{has_id, IsSound, has_id-next, without_fresh}
use spark_controlplane.Endpoints.Handlers.{
  Holds, SoundAs, answered_Holds, bind_Holds, require-Holds, set_aliases-IsSound, save-IsSound,
  load_known, delete-IsSound,
}

-- A request to the endpoints of the API that writes.
pub data Request : Type 0 where
  create : EndpointIn → Request
  update : (name : String) → EndpointUpdate → Request
  upload : (name : String) (cert key : Text) → Request
  delete : (name : String) → Request

abbrev pub or_same : Portal → Answer Portal → Portal
or_same p (answered q) = q
or_same p (refused e) = p

module _ (load_pem : Text → Option Parsed) (encrypt : Text → String) where
  abbrev pub handle : Request → Portal → Answer Portal
  handle (create payload) p = create_endpoint load_pem encrypt payload p
  handle (update name payload) p = update_endpoint name payload p
  handle (upload name cert key) p = upload_tls load_pem encrypt name cert key p
  handle (delete name) p = delete_endpoint name p

  abbrev pub run : List Request → Portal → Portal
  run [] p = p
  run (r ∷ rs) p = run rs (or_same p (handle r p))

with_endpoint :
    (p : Portal) (e : EndpointRow)
    → IsSound p
    → IsSound (record p { endpoints = p.endpoints ++ e ∷ [] })
with_endpoint p e s = record {
  unique = s.unique;
  foreign =
      All-map _ _ p.aliases
        (λ a h.
          ground (arith, any-append (λ f. f.base.id == a.endpoint_id) p.endpoints (e ∷ []), h))
        s.foreign;
}

some_Holds : {A : Type 0} (r : Answer A) → Holds (λ a. Unit {0}) r
some_Holds r = record { holds = λ a e. tt }

module _ (load_pem : Text → Option Parsed) (encrypt : Text → String) where
  -- The optional certificate of a new endpoint.
  finish-IsSound :
      (b : Bool) (r : Answer EndpointRow) (q : Portal)
      → IsSound q
      → Holds IsSound (if b then (r >>= λ f. save f q) else answered q)
  finish-IsSound true r q s =
      bind_Holds (λ f. Unit) r (λ f. save f q) (some_Holds r) (λ f u. save-IsSound f q s)
  finish-IsSound false r q s = answered_Holds q s

  create-IsSound :
      (payload : EndpointIn) (p : Portal)
      → IsSound p
      → Holds IsSound (create_endpoint load_pem encrypt payload p)
  unfolding create_endpoint
  create-IsSound payload p s =
      let i = next_endpoint_id p.endpoints in
      let e = new_endpoint payload i in
      let p' : Portal = record p { endpoints = p.endpoints ++ e ∷ [] } in
      require-Holds _ name_exists _ (
        require-Holds _ integrity_error _ (
          bind_Holds (SoundAs p'.endpoints) (set_aliases i (entries payload.aliases) true p') _
            (set_aliases-IsSound i (entries payload.aliases) true p'
              (λ new. without_fresh i p.endpoints p.aliases (has_id-next p.endpoints) s.foreign)
              (ground
                (arith, any-append (λ f. f.base.id == i) p.endpoints (e ∷ []), nat_beq_iff i i))
              (with_endpoint p e s))
            (λ q h. finish-IsSound _ _ q h.0)))

  upload-IsSound :
      (name : String) (cert key : Text) (p : Portal)
      → IsSound p
      → Holds IsSound (upload_tls load_pem encrypt name cert key p)
  unfolding upload_tls
  upload-IsSound name cert key p s =
      bind_Holds (λ e. Unit) (load name p) _ (some_Holds (load name p))
        (λ e u.
          bind_Holds (λ f. Unit) (apply_cert load_pem encrypt e cert key) _
            (some_Holds (apply_cert load_pem encrypt e cert key)) (λ f v. save-IsSound f p s))

new_aliases-IsSound :
    (e : EndpointRow) (aliases : Option (List Text)) (p : Portal)
    → IsSound p
    → has_id e.base.id p.endpoints ≡ true
    → Holds IsSound
        (elim aliases [ none ↦ answered p | some ts ↦ set_aliases e.base.id (entries ts) false p ])
new_aliases-IsSound e none p s known = answered_Holds p s
new_aliases-IsSound e (some ts) p s known =
    let h = set_aliases-IsSound e.base.id (entries ts) false p (λ x. cc) known s in
    record { holds = λ q r. (h.holds q r).0 }

update-IsSound :
    (name : String) (payload : EndpointUpdate) (p : Portal)
    → IsSound p
    → Holds IsSound (update_endpoint name payload p)
unfolding update_endpoint
update-IsSound name payload p s =
    bind_Holds (λ e. has_id e.base.id p.endpoints ≡ true) (load name p) _ (load_known name p)
      (λ e known. require-Holds _ needs_upstream_port _ (
        bind_Holds IsSound _ _ (new_aliases-IsSound e payload.aliases p s known)
          (λ q t. save-IsSound (patched payload e) q t)))

deletes-IsSound : (name : String) (p : Portal) → IsSound p → Holds IsSound (delete_endpoint name p)
unfolding delete_endpoint
deletes-IsSound name p s =
    bind_Holds (λ e. Unit) (load name p) _ (some_Holds (load name p))
      (λ e u. require-Holds _ still_served _ (
        require-Holds _ integrity_error _
          (answered_Holds _ (delete-IsSound e.base.id p s _ refl refl))))

or_same-IsSound :
    (p : Portal) (r : Answer Portal) → IsSound p → Holds IsSound r → IsSound (or_same p r)
or_same-IsSound p (answered q) s h = h.holds q refl
or_same-IsSound p (refused e) s h = s

module _ (load_pem : Text → Option Parsed) (encrypt : Text → String) where
  handle-IsSound :
      (r : Request) (p : Portal) → IsSound p → Holds IsSound (handle load_pem encrypt r p)
  handle-IsSound (create payload) p s = create-IsSound load_pem encrypt payload p s
  handle-IsSound (update name payload) p s = update-IsSound name payload p s
  handle-IsSound (upload name cert key) p s = upload-IsSound load_pem encrypt name cert key p s
  handle-IsSound (delete name) p s = deletes-IsSound name p s

  -- Whatever requests come, in whatever order, every alias has at most one owner, which is an
  -- endpoint of the table, if it was so before.
  pub run-IsSound :
      (requests : List Request) (p : Portal) → IsSound p → IsSound (run load_pem encrypt requests p)
  run-IsSound [] p s = s
  run-IsSound (r ∷ rs) p s =
      run-IsSound rs (or_same p (handle load_pem encrypt r p))
        (or_same-IsSound p (handle load_pem encrypt r p) s (handle-IsSound r p s))
