-- ===== src/Endpoints/Cover.antt =====
-- Which hosts a name of a certificate covers.
use spark_controlplane.Prelude.{
  ℕ, ◌+◌, ◌≡◌, refl, sym, ap, ◌∙◌, ◌⊎◌, ◌↔◌, inl, inr, true, false, [], ◌∷◌, ◌++◌, arith,
  Bool-cases, nat_beq_iff, ◌==◌, nat_eq,
}
use spark_controlplane.Text.{Text, codes, text_beq, startswith}
use spark_controlplane.Text.Laws.{text_beq_iff}
use spark_controlplane.Endpoints.{endswith, count, name_covers}

-- The host is the name, or the name is a wildcard and the host has one more label in front of the
-- rest of it.
abbrev pub Covers : Text → Text → Type 0
Covers host name =
    (name ≡ host)
    ⊎ ((label : Text) × (rest : Text) × (name ≡ b'*' ∷ b'.' ∷ rest)
        × (host ≡ label ++ b'.' ∷ rest)
        × (count b'.' label ≡ 0))

endswith_split :
    (suffix host : Text) → endswith suffix host ≡ true → (front : Text) × (host ≡ front ++ suffix)
unfolding endswith
endswith_split suffix [] h = ([], ground (arith, text_beq_iff suffix []))
endswith_split suffix (c ∷ cs) h = elim (Bool-cases (text_beq suffix (c ∷ cs))) [
  | inl whole ↦ ([], sym ((text_beq_iff suffix (c ∷ cs)).0 whole))
  | inr part ↦
      let (front, e) = endswith_split suffix cs (ground (arith, h, part)) in
      (c ∷ front, ap (λ t. c ∷ t) e)
]

endswith-append : (front suffix : Text) → endswith suffix (front ++ suffix) ≡ true
unfolding endswith
endswith-append [] [] = refl
endswith-append [] (c ∷ cs) = ground (arith, (text_beq_iff (c ∷ cs) (c ∷ cs)).1 refl)
endswith-append (c ∷ front) suffix = ground (arith, endswith-append front suffix)

count-append : (c : ℕ) (s t : Text) → count c (s ++ t) ≡ count c s + count c t
unfolding count
count-append c [] t = omega arith
count-append c (d ∷ s) t = omega (arith, count-append c s t)

wildcard_split :
    (name : Text)
    → startswith (codes "*.") name ≡ true
    → (rest : Text) × (name ≡ b'*' ∷ b'.' ∷ rest)
unfolding startswith
wildcard_split [] h = cc
wildcard_split (c ∷ []) h = ground arith
wildcard_split (c ∷ d ∷ rest) h = (rest, ground (arith, nat_beq_iff b'*' c, nat_beq_iff b'.' d))

exact_covers : (host name : Text) → name ≡ host → name_covers host name ≡ true
unfolding name_covers
exact_covers host name e = ground (arith, (text_beq_iff name host).1 e)

wildcard_covers :
    (label rest : Text)
    → count b'.' label ≡ 0
    → name_covers (label ++ b'.' ∷ rest) (b'*' ∷ b'.' ∷ rest) ≡ true
unfolding name_covers startswith count
wildcard_covers label rest none_left = ground (
  arith,
  endswith-append label (b'.' ∷ rest),
  count-append b'.' label (b'.' ∷ rest),
  nat_beq_iff (count b'.' (label ++ b'.' ∷ rest)) (1 + count b'.' rest),
)

Covers-wildcard :
    (host rest : Text)
    → endswith (b'.' ∷ rest) host ≡ true
    → (count b'.' host == count b'.' (b'*' ∷ b'.' ∷ rest)) ≡ true
    → Covers host (b'*' ∷ b'.' ∷ rest)
unfolding count
Covers-wildcard host rest ends dots =
    let (label, e) = endswith_split (b'.' ∷ rest) host ends in
    inr (
      label,
      rest,
      refl,
      e,
      ground (
        arith,
        ap (count b'.') e,
        count-append b'.' label (b'.' ∷ rest),
        nat_beq_iff (count b'.' host) (1 + count b'.' rest),
      ),
    )

wild_sound :
    (host rest : Text)
    → name_covers host (b'*' ∷ b'.' ∷ rest) ≡ true
    → text_beq (b'*' ∷ b'.' ∷ rest) host ≡ false
    → Covers host (b'*' ∷ b'.' ∷ rest)
unfolding name_covers
wild_sound host rest h other =
    Covers-wildcard host rest (ground (arith, h, other)) (ground (arith, h, other))

name_covers_sound : (host name : Text) → name_covers host name ≡ true → Covers host name
unfolding name_covers
name_covers_sound host name h = elim (Bool-cases (text_beq name host)) [
  | inl same ↦ inl ((text_beq_iff name host).0 same)
  | inr other ↦
      let (rest, e) = wildcard_split name (ground (arith, h, other)) in
      let covers : name_covers host (b'*' ∷ b'.' ∷ rest) ≡ true =
        ap (name_covers host) (sym e) ∙ h in
      let differs : text_beq (b'*' ∷ b'.' ∷ rest) host ≡ false =
        ap (λ n. text_beq n host) (sym e) ∙ other in
      rw e (wild_sound host rest covers differs)
]

-- A name covers a host exactly if it is the host, or "*." and what follows the first label of the
-- host, which has no dot: a wildcard stands for one label.
pub name_covers-iff-Covers : (host name : Text) → (name_covers host name ≡ true) ↔ Covers host name
name_covers-iff-Covers host name = (
  name_covers_sound host name,
  λ c. elim c [
    | inl same ↦ exact_covers host name same
    | inr (label, rest, is_wild, is_host, no_dot) ↦
        rw (is_wild, is_host) (wildcard_covers label rest no_dot)
  ],
)
