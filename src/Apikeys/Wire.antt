-- ===== src/Apikeys/Wire.antt =====
-- The bytes of a token on the wire, in apikeys.py.
use spark_controlplane.Prelude.{
  ℕ, ◌<◌, ◌≡◌, refl, ap, String, Bool, true, [], ◌∷◌, All, all, all-append, arith, ltb,
}
use spark_controlplane.Text.{Text}
use spark_controlplane.Apikeys.{utf8_of, utf8, wire_bytes, digest, digest_wire}

-- What Unicode has.
abbrev pub IsText : Text → Type 0
IsText cs = All (λ c. c < 1_114_112) cs

abbrev pub is_byte : ℕ → Bool
is_byte c = ltb c 256

utf8_of_bytes : (c : ℕ) → c < 1_114_112 → all is_byte (utf8_of c) ≡ true
unfolding utf8_of
utf8_of_bytes c h = ground arith

utf8_bytes : (cs : Text) → IsText cs → all is_byte (utf8 cs) ≡ true
unfolding utf8
utf8_bytes [] h = refl
utf8_bytes (c ∷ cs) (h, hs) =
    ground (arith, all-append is_byte (utf8_of c) (utf8 cs), utf8_of_bytes c h, utf8_bytes cs hs)

pub wire_bytes-utf8 : (cs : Text) → IsText cs → wire_bytes (utf8 cs) ≡ utf8 cs
unfolding wire_bytes
wire_bytes-utf8 cs h = ground (arith, utf8_bytes cs h)

-- digest
pub digest_wire-utf8 :
    (sha256 : Text → String) (cs : Text)
    → IsText cs
    → digest_wire sha256 (utf8 cs) ≡ digest sha256 cs
unfolding digest_wire digest
digest_wire-utf8 sha256 cs h = ap sha256 (wire_bytes-utf8 cs h)
