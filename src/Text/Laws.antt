-- ===== src/Text/Laws.antt =====
-- The test of two texts is equality, so that `==` compares them.
use spark_controlplane.Prelude.{
  ◌≡◌, ◌↔◌, refl, true, arith, [], ◌∷◌, ◌++◌, nat_beq_iff, nat_eq, Comparable,
}
use spark_controlplane.Text.{Text, text_beq, startswith}

text_beq→eq : (s t : Text) → text_beq s t ≡ true → s ≡ t
text_beq→eq [] [] h = refl
text_beq→eq [] (d ∷ t) h = cc
text_beq→eq (c ∷ s) [] h = cc
text_beq→eq (c ∷ s) (d ∷ t) h = ground (arith, text_beq→eq s t, nat_beq_iff c d)

text_beq_refl : (s : Text) → text_beq s s ≡ true
text_beq_refl [] = refl
text_beq_refl (c ∷ s) = ground (arith, text_beq_refl s, nat_beq_iff c c)

pub text_beq_iff : (s t : Text) → (text_beq s t ≡ true) ↔ (s ≡ t)
text_beq_iff s t = (text_beq→eq s t, λ e. rw e (text_beq_refl t))

instance abbrev pub text_eq : Comparable Text
text_eq = record { same = text_beq; same_iff = text_beq_iff }

-- A text starts with another exactly if it is the other with something behind it.
pub startswith-iff-append :
    (p t : Text) → (startswith p t ≡ true) ↔ ((rest : Text) × (t ≡ p ++ rest))
unfolding startswith
startswith-iff-append [] t = (λ h. (t, refl), λ h. refl)
startswith-iff-append (c ∷ p) [] = (λ h. ground arith, λ (rest, e). ground arith)
startswith-iff-append (c ∷ p) (d ∷ t) = (
  λ h.
      let (rest, e) = (startswith-iff-append p t).0 (ground arith) in
      (rest, ground (arith, nat_beq_iff c d)),
  λ (rest, e).
      let tail : t ≡ p ++ rest = ground arith in
      ground (arith, nat_beq_iff c d, (startswith-iff-append p t).1 (rest, tail)),
)
