-- ===== src/Endpoints/Handlers.antt =====
-- Every handler keeps the tables well formed.
use spark_controlplane.Prelude.{
  ℕ, ◌≡◌, refl, ◌∙◌, ◌⊎◌, inl, inr, String, Bool, true, false, not, some, List, [], ◌∷◌, keep_if,
  All, All-map, arith, Bool-cases, Option-cases, nat_beq_iff, ◌==◌, nat_eq,
}
use spark_controlplane.Portal.{EndpointRow, EndpointAlias, Portal}
use spark_controlplane.Text.{Text}
use spark_controlplane.Endpoints.{Raw, is_alias, items, normalise_aliases}
use spark_controlplane.Endpoints.Names.{normalise_aliases-eq-firsts}
use spark_controlplane.Endpoints.Answers.{
  Answer, answered, refused, ◌>>=◌, ◌>>◌, require, HttpError,
}
use spark_controlplane.Endpoints.Requests.{
  taken, without, set_accepted, set_aliases, change_endpoint, save, is_clash, load, find_name,
}
use spark_controlplane.Endpoints.Owners.{IsOnce, owned-without_le, firsts-IsOnce}
use spark_controlplane.Endpoints.Tables.{has_id, IsSound, replaced-IsSound}

-- What holds of the value of an answer, if it has one.
pub record Holds {A : Type 0} (P : A → Type 0) (r : Answer A) : Type 0 where
  pub holds : (a : A) → r ≡ answered a → P a

value_of : {A : Type 0} (a b : A) → answered a ≡ answered b → a ≡ b
value_of a b e = ground arith

pub answered_Holds : {A : Type 0} {P : A → Type 0} (a : A) → P a → Holds P (answered a)
answered_Holds a h = record { holds = λ b e. rw⁻¹ (value_of a b e) h }

pub refused-Holds : {A : Type 0} {P : A → Type 0} (e : HttpError) → Holds P (refused e)
refused-Holds e = record { holds = λ b x. cc }

pub bind_Holds :
    {A B : Type 0} {Q : B → Type 0} (P : A → Type 0) (r : Answer A) (f : A → Answer B)
    → Holds P r
    → ((a : A) → P a → Holds Q (f a))
    → Holds Q (r >>= f)
unfolding ◌>>=◌
bind_Holds P (answered a) f h k = k a (h.holds a refl)
bind_Holds P (refused e) f h k = refused-Holds e

pub require-Holds :
    {B : Type 0} {Q : B → Type 0} (b : Bool) (e : HttpError) (r : Answer B)
    → Holds Q r
    → Holds Q (require b e >> r)
unfolding ◌>>=◌ ◌>>◌ require
require-Holds true e r h = h
require-Holds false e r h = refused-Holds e

-- Sound, with the endpoints of `p`.
abbrev pub SoundAs : List EndpointRow → Portal → Type 0
SoundAs es q = IsSound q × (q.endpoints ≡ es)

List_cases : {A : Type 0} (xs : List A) → (xs ≡ []) ⊎ ((x : A) × (ys : List A) × (xs ≡ x ∷ ys))
List_cases [] = inl refl
List_cases (x ∷ xs) = inr (x, xs, refl)

set_accepted_sound :
    (i : ℕ) (is_new : Bool) (p : Portal) (accepted rejected : List Text)
    → IsOnce accepted
    → (is_new ≡ true → without i p.aliases ≡ p.aliases)
    → has_id i p.endpoints ≡ true
    → IsSound p
    → Holds (SoundAs p.endpoints) (set_accepted i is_new p accepted rejected)
unfolding set_accepted
set_accepted_sound i is_new p accepted (r ∷ rejected) once new_ok known s = refused-Holds _
set_accepted_sound i is_new p [] [] once new_ok known s = refused-Holds _
set_accepted_sound i is_new p (t ∷ accepted) [] once new_ok known s =
    elim (List_cases (taken i (t ∷ accepted) p.aliases)) [
      | inr (c, clash, e) ↦ rw (set_accepted, e) (refused-Holds _)
      | inl free ↦ elim (Bool-cases is_new) [
        | inl new ↦
            rw (set_accepted, free, new)
              (answered_Holds _
                (rw (new_ok new) at (replaced-IsSound p i (t ∷ accepted) once free known s), refl))
        | inr old ↦
            rw (set_accepted, free, old)
              (answered_Holds _ (replaced-IsSound p i (t ∷ accepted) once free known s, refl))
      ]
    ]

pub set_aliases-IsSound :
    (i : ℕ) (raw : Raw) (is_new : Bool) (p : Portal)
    → (is_new ≡ true → without i p.aliases ≡ p.aliases)
    → has_id i p.endpoints ≡ true
    → IsSound p
    → Holds (SoundAs p.endpoints) (set_aliases i raw is_new p)
unfolding set_aliases
set_aliases-IsSound i raw is_new p new_ok known s =
    let once : IsOnce (normalise_aliases raw).0 =
      rw (normalise_aliases-eq-firsts raw) (firsts-IsOnce (keep_if is_alias (items raw))) in
    set_accepted_sound i is_new p (normalise_aliases raw).0 (normalise_aliases raw).1 once new_ok
      known s

has_id-change_endpoint :
    (i j : ℕ) (f : EndpointRow) (es : List EndpointRow)
    → f.base.id ≡ i
    → has_id j (change_endpoint i (λ e. f) es) ≡ has_id j es
has_id-change_endpoint i j f [] h = refl
has_id-change_endpoint i j f (e ∷ es) h = elim (Bool-cases (e.base.id == i)) [
  | inl same ↦ ground (arith, has_id-change_endpoint i j f es h, nat_beq_iff e.base.id i)
  | inr other ↦ ground (arith, has_id-change_endpoint i j f es h)
]

pub save-IsSound : (f : EndpointRow) (p : Portal) → IsSound p → Holds IsSound (save f p)
unfolding save
save-IsSound f p s = elim (Bool-cases (is_clash f p.endpoints)) [
  | inl clash ↦ rw (save, clash) (refused-Holds _)
  | inr fine ↦
      rw (save, fine)
        (answered_Holds _ (record {
          unique = s.unique;
          foreign =
              All-map _ _ p.aliases
                (λ a h. has_id-change_endpoint f.base.id a.endpoint_id f p.endpoints refl ∙ h)
                s.foreign;
        }))
]

find_name_known :
    (name : String) (es : List EndpointRow) (e : EndpointRow)
    → find_name name es ≡ some e
    → has_id e.base.id es ≡ true
find_name_known name [] e h = cc
find_name_known name (x ∷ es) e h =
    ground (arith, find_name_known name es e, nat_beq_iff e.base.id e.base.id)

pub load_known :
    (name : String) (p : Portal) → Holds (λ e. has_id e.base.id p.endpoints ≡ true) (load name p)
unfolding load
load_known name p = elim (Option-cases (find_name name p.endpoints)) [
  | inl absent ↦ rw (load, absent) (refused-Holds _)
  | inr (e, found) ↦ rw (load, found) (answered_Holds e (find_name_known name p.endpoints e found))
]

pub delete-IsSound :
    (i : ℕ) (p : Portal)
    → IsSound p
    → (q : Portal) → q.endpoints ≡ keep_if (λ f. not (f.base.id == i)) p.endpoints
    → q.aliases ≡ without i p.aliases
    → IsSound q
delete-IsSound i p s q es rows = record {
  unique = λ t. rw rows (omega (arith, owned-without_le t i p.aliases, s.unique t));
  foreign = rw (es, rows) (kept p.aliases s.foreign);
}
  where
    still :
        (j : ℕ) (fs : List EndpointRow)
        → (j == i) ≡ false
        → has_id j fs ≡ true
        → has_id j (keep_if (λ f. not (f.base.id == i)) fs) ≡ true
    still j [] ne h = h
    still j (f ∷ fs) ne h = ground (arith, still j fs ne, nat_beq_iff f.base.id j)

    kept :
        (rs : List EndpointAlias)
        → All (λ a. has_id a.endpoint_id p.endpoints ≡ true) rs
        → All
            (λ a. has_id a.endpoint_id (keep_if (λ f. not (f.base.id == i)) p.endpoints) ≡ true)
            (without i rs)
    kept [] h = tt
    kept (a ∷ rs) (h, hs) = elim (Bool-cases (a.endpoint_id == i)) [
      | inl same ↦ rw same (kept rs hs)
      | inr other ↦ rw other (still a.endpoint_id p.endpoints other h, kept rs hs)
    ]
