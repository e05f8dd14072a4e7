-- ===== src/Power/Packet.antt =====
-- The address of a node, and its packet.
use spark_controlplane.Prelude.{
  ℕ, zero, suc, ◌+◌, ◌*◌, ◌/◌, ◌%◌, ◌≡◌, ◌<◌, refl, ap, ◌∙◌, inl, inr, true, Option, none, some,
  List, [], ◌∷◌, ◌++◌, All, arith, length, length-append, ltb, Bool-cases, nat_beq_iff, nat_eq,
  if◌then◌else◌,
}
use spark_controlplane.Text.{Text, strip, lower}
use spark_controlplane.Power.{
  is_hex, hex_value, colons, is_pairs, normalize_mac, from_hex, times, build_magic_packet,
}

hex_below : (c : ℕ) → is_hex c ≡ true → hex_value c < 16
hex_below c h = ground arith

-- The bytes of an address of `n + 1` pairs.
from_hex_bytes :
    (n : ℕ) (t : Text)
    → is_pairs n t ≡ true
    → (length (from_hex t) ≡ suc n) × All (λ b. b < 256) (from_hex t)
unfolding is_pairs from_hex
from_hex_bytes zero [] h = cc
from_hex_bytes zero (a ∷ []) h = cc
from_hex_bytes zero (a ∷ b ∷ []) h =
    (refl, (omega (arith, hex_below a (ground arith), hex_below b (ground arith)), tt))
from_hex_bytes zero (a ∷ b ∷ c ∷ t) h = cc
from_hex_bytes (suc n) [] h = cc
from_hex_bytes (suc n) (a ∷ []) h = cc
from_hex_bytes (suc n) (a ∷ b ∷ []) h = cc
from_hex_bytes (suc n) (a ∷ b ∷ c ∷ t) h =
    let (count, bytes) = from_hex_bytes n t (ground arith) in
    (
      omega (arith, count),
      (omega (arith, hex_below a (ground arith), hex_below b (ground arith)), bytes),
    )

-- The text of an address, two digits for each byte.
abbrev pub hex_digit : ℕ → ℕ
hex_digit v = if ltb v 10 then 48 + v else 87 + v

unfoldable pub mac_text : List ℕ → Text
mac_text [] = []
mac_text (b ∷ []) = hex_digit (b / 16) ∷ hex_digit (b % 16) ∷ []
mac_text (b ∷ c ∷ bytes) = hex_digit (b / 16) ∷ hex_digit (b % 16) ∷ b':' ∷ mac_text (c ∷ bytes)

hex_digit-hex_value : (c : ℕ) → is_hex c ≡ true → hex_digit (hex_value c) ≡ c
hex_digit-hex_value c h = ground arith

high_low : (a b : ℕ) → b < 16 → ((16 * a + b) / 16 ≡ a) × ((16 * a + b) % 16 ≡ b)
high_low a b h = (omega arith, omega arith)

pair_digits :
    (a b : ℕ)
    → is_hex a ≡ true
    → is_hex b ≡ true
    → (hex_digit ((16 * hex_value a + hex_value b) / 16) ≡ a)
      × (hex_digit ((16 * hex_value a + hex_value b) % 16) ≡ b)
pair_digits a b h k =
    let (high, low) = high_low (hex_value a) (hex_value b) (hex_below b k) in
    (ap hex_digit high ∙ hex_digit-hex_value a h, ap hex_digit low ∙ hex_digit-hex_value b k)

mac_text_cons :
    (v : ℕ) (bytes : List ℕ) (n : ℕ)
    → length bytes ≡ suc n
    → mac_text (v ∷ bytes) ≡ hex_digit (v / 16) ∷ hex_digit (v % 16) ∷ b':' ∷ mac_text bytes
unfolding mac_text
mac_text_cons v [] n h = cc
mac_text_cons v (c ∷ bytes) n h = refl

mac_text-from_hex : (n : ℕ) (t : Text) → is_pairs n t ≡ true → mac_text (from_hex t) ≡ t
unfolding is_pairs from_hex mac_text
mac_text-from_hex zero [] h = cc
mac_text-from_hex zero (a ∷ []) h = cc
mac_text-from_hex zero (a ∷ b ∷ []) h =
    let (high, low) = pair_digits a b (ground arith) (ground arith) in rw (high, low) refl
mac_text-from_hex zero (a ∷ b ∷ c ∷ t) h = cc
mac_text-from_hex (suc n) [] h = cc
mac_text-from_hex (suc n) (a ∷ []) h = cc
mac_text-from_hex (suc n) (a ∷ b ∷ []) h = cc
mac_text-from_hex (suc n) (a ∷ b ∷ c ∷ t) h =
    let (high, low) = pair_digits a b (ground arith) (ground arith) in
    let colon : b':' ≡ c = ground (arith, nat_beq_iff c b':') in
    mac_text_cons (16 * hex_value a + hex_value b) (from_hex t) n
      (from_hex_bytes n t (ground arith)).0
    ∙ rw (high, low, mac_text-from_hex n t (ground arith), colon) refl

-- A normal address has six pairs.
normal_pairs :
    (raw : Option Text) (norm : Text) → normalize_mac raw ≡ some norm → is_pairs 5 norm ≡ true
unfolding normalize_mac
normal_pairs none norm h = cc
normal_pairs (some raw) norm h = elim (Bool-cases (is_pairs 5 (colons (lower (strip raw))))) [
  | inl good ↦ ground (arith, good)
  | inr bad ↦ ground (arith, bad)
]

-- The bytes of a normal address are six, and print as the address again.
pub from_hex-mac_text :
    (raw : Option Text) (norm : Text)
    → normalize_mac raw ≡ some norm
    → (length (from_hex norm) ≡ 6)
      × All (λ b. b < 256) (from_hex norm)
      × (mac_text (from_hex norm) ≡ norm)
from_hex-mac_text raw norm h =
    let pairs = normal_pairs raw norm h in
    let (count, bytes) = from_hex_bytes 5 norm pairs in
    (count, bytes, mac_text-from_hex 5 norm pairs)

length-times : (n : ℕ) (bytes : List ℕ) → length (times n bytes) ≡ n * length bytes
length-times zero bytes = omega arith
length-times (suc n) bytes =
    omega (arith, length-append bytes (times n bytes), length-times n bytes)

All-append : (P : ℕ → Type 0) (xs ys : List ℕ) → All P xs → All P ys → All P (xs ++ ys)
All-append P [] ys h k = k
All-append P (x ∷ xs) ys (h, hs) k = (h, All-append P xs ys hs k)

All-times : (P : ℕ → Type 0) (n : ℕ) (bytes : List ℕ) → All P bytes → All P (times n bytes)
All-times P zero bytes h = tt
All-times P (suc n) bytes h = All-append P bytes (times n bytes) h (All-times P n bytes h)

-- Every text that is an address has a packet, of 102 bytes: six of 255, and the address's six
-- bytes sixteen times; they print as the address in its normal form.
pub build_magic_packet_lem :
    (mac norm : Text)
    → normalize_mac (some mac) ≡ some norm
    → (packet : List ℕ) × (build_magic_packet mac ≡ some packet)
      × (packet ≡ times 6 (255 ∷ []) ++ times 16 (from_hex norm))
      × (length packet ≡ 102)
      × All (λ b. b < 256) packet
      × (mac_text (from_hex norm) ≡ norm)
unfolding build_magic_packet
build_magic_packet_lem mac norm h =
    let (count, bytes, printed) = from_hex-mac_text (some mac) norm h in
    (
      times 6 (255 ∷ []) ++ times 16 (from_hex norm),
      rw (build_magic_packet, h) refl,
      refl,
      omega (
        arith,
        length-append (times 6 (255 ∷ [])) (times 16 (from_hex norm)),
        length-times 16 (from_hex norm),
        count,
      ),
      All-append (λ b. b < 256) (times 6 (255 ∷ [])) (times 16 (from_hex norm))
          (All-times (λ b. b < 256) 6 (255 ∷ []) (omega arith, tt))
          (All-times (λ b. b < 256) 16 (from_hex norm) bytes),
      printed,
    )
