-- ===== src/Gateway/Names.antt =====
-- The names that the gateway knows of an instance, in gateway.py, and those its unit is launched with.
use spark_controlplane.Prelude.{
  ◌≡◌, ◌≢◌, refl, none, true, Bool-cases, Option, some, List, [], ◌∷◌, inl, inr, ◌⊎◌, any, arith,
}
use spark_controlplane.Text.{Text, text_beq}
use spark_controlplane.Gateway.{
  Served, serves, has_own_names, served_names, launched_names, effective_aliases,
  parse_served_model_names,
}

abbrev list_of : List Text → List Text
list_of names = names

same_fallback :
    (model : Text) (names : List Text) (found : Option Text)
    → any
        (λ n. text_beq n model)
        (list_of
          (elim names [ n ∷ ns ↦ n ∷ ns | [] ↦ elim found [ none ↦ [] | some name ↦ name ∷ [] ] ]))
      ≡ true
    → (any
          (λ n. text_beq n model)
          (list_of (elim names [
            | n ∷ ns ↦ n ∷ ns
            | [] ↦ elim found [ some (c ∷ cs) ↦ (c ∷ cs) ∷ [] | _ ↦ [] ]
          ]))
        ≡ true)
      ⊎ (model ≡ [])
same_fallback model (n ∷ ns) found h = inl h
same_fallback model [] none h = ground arith
same_fallback [] [] (some name) h = inr refl
same_fallback (d ∷ ds) [] (some []) h = ground arith
same_fallback (d ∷ ds) [] (some (c ∷ cs)) h = inl h

no_aliases : (xs : List Text) → (xs ≡ []) ⊎ (xs ≢ [])
no_aliases [] = inl refl
no_aliases (x ∷ xs) = inr (λ e. cc)

-- Outside the endpoints, and without names in its extra arguments, the gateway knows the names that the unit is launched with.
pub launched-served_names :
    (model : Text) (i : Served)
    → serves model i ≡ true
    → (any (λ n. text_beq n model) (launched_names i) ≡ true)
      ⊎ (i.endpoint_aliases ≢ [])
      ⊎ (has_own_names i.extra_args ≡ true)
      ⊎ (model ≡ [])
unfolding serves served_names launched_names effective_aliases
launched-served_names model i h = elim (no_aliases i.endpoint_aliases) [
  | inr member ↦ inr (inl member)
  | inl alone ↦ elim (Bool-cases (has_own_names i.extra_args)) [
    | inl own ↦ inr (inr (inl own))
    | inr plain ↦
        rw (alone, plain)
          (elim (same_fallback model (parse_served_model_names i.served_model_names) i.model_name
            h) [ inl launched ↦ inl launched | inr empty ↦ inr (inr (inr empty)) ])
  ]
]
