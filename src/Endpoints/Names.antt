-- ===== src/Endpoints/Names.antt =====
-- Which aliases an endpoint takes.
use spark_controlplane.Prelude.{
  ◌≡◌, refl, inl, inr, true, not, List, [], ◌∷◌, arith, Bool-cases, nat_eq, keep_if,
}
use spark_controlplane.Text.{Text, text_beq}
use spark_controlplane.Text.Laws.{text_beq_iff}
use spark_controlplane.Endpoints.{is_alias, has, sort_items, normalise_aliases, items, Raw}

-- The first occurrence of each text.
abbrev pub firsts : List Text → List Text
firsts [] = []
firsts (t ∷ ts) = t ∷ keep_if (λ s. not (text_beq t s)) (firsts ts)

-- What `normalise_aliases` accepts of the rest, with what it has seen.
abbrev fresh : List Text → List Text → List Text
fresh seen ts = keep_if (λ s. not (has s seen)) (firsts (keep_if is_alias ts))

keep_if-keep_if :
    (t : Text) (seen ts : List Text)
    → keep_if (λ s. not (has s (t ∷ seen))) ts
      ≡ keep_if (λ s. not (has s seen)) (keep_if (λ s. not (text_beq t s)) ts)
keep_if-keep_if t seen [] = refl
keep_if-keep_if t seen (s ∷ ts) = ground (arith, keep_if-keep_if t seen ts)

-- A name that was seen may be taken out before or after.
keep_if-seen :
    (t : Text) (seen ts : List Text)
    → has t seen ≡ true
    → keep_if (λ s. not (has s seen)) (keep_if (λ s. not (text_beq t s)) ts)
      ≡ keep_if (λ s. not (has s seen)) ts
keep_if-seen t seen [] h = refl
keep_if-seen t seen (s ∷ ts) h = elim (Bool-cases (text_beq t s)) [
  | inl same ↦
      let again : has s seen ≡ true = rw⁻¹ ((text_beq_iff t s).0 same) h in
      ground (arith, keep_if-seen t seen ts h)
  | inr other ↦ ground (arith, keep_if-seen t seen ts h)
]

accepted_eq : (seen ts : List Text) → (sort_items seen ts).0 ≡ fresh seen ts
unfolding sort_items
accepted_eq seen [] = refl
accepted_eq seen (t ∷ ts) = elim (Bool-cases (is_alias t)) [
  | inr bad ↦ ground (arith, accepted_eq seen ts)
  | inl good ↦ elim (Bool-cases (has t seen)) [
    | inl old ↦
        ground (arith, accepted_eq seen ts, keep_if-seen t seen (firsts (keep_if is_alias ts)) old)
    | inr new ↦
        ground
          (arith, accepted_eq (t ∷ seen) ts, keep_if-keep_if t seen (firsts (keep_if is_alias ts)))
  ]
]

rejected_eq : (seen ts : List Text) → (sort_items seen ts).1 ≡ keep_if (λ t. not (is_alias t)) ts
unfolding sort_items
rejected_eq seen [] = refl
rejected_eq seen (t ∷ ts) = ground (arith, rejected_eq seen ts, rejected_eq (t ∷ seen) ts)

fresh_none : (ts : List Text) → keep_if (λ s. not (has s [])) ts ≡ ts
fresh_none [] = refl
fresh_none (t ∷ ts) = ground (arith, fresh_none ts)

-- Of the words that a client sends, the valid aliases are accepted, each once and in the order of
-- their first occurrences, and all others are rejected.
pub normalise_aliases-eq-firsts :
    (raw : Raw)
    → normalise_aliases raw
      ≡ (firsts (keep_if is_alias (items raw)), keep_if (λ t. not (is_alias t)) (items raw))
unfolding normalise_aliases
normalise_aliases-eq-firsts raw = ground (
  arith,
  accepted_eq [] (items raw),
  fresh_none (firsts (keep_if is_alias (items raw))),
  rejected_eq [] (items raw),
)
