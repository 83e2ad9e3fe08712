-- ===== src/KeyManagement/Hex.antt =====
-- src/services/beacon_management/key_management.rs: `hex_encode`, and `u64::to_be_bytes`.
use place_net_hamlet.Common.{
  ℕ, zero, suc, ◌+◌, ◌-◌, ◌*◌, ◌/◌, ◌%◌, ◌<◌, ◌≤◌, ◌⊎◌, ◌≡◌, refl, ◌∙◌, List, [], ◌∷◌, ◌++◌, Option,
  none, some, ◌&&◌, Text, arith, ltb, leb, if◌then◌else◌, length, All, length-append,
}

abbrev pub Bytes : Type 0
Bytes = List ℕ

-- A digit of `{:02x}`.
unfoldable pub hex_digit : ℕ → ℕ
hex_digit d = if ltb d 10 then b'0' + d else b'a' + (d - 10)

unfoldable pub hex_encode : Bytes → Text
unfolding hex_digit
hex_encode [] = []
hex_encode (b ∷ bs) = hex_digit (b / 16) ∷ hex_digit (b % 16) ∷ hex_encode bs

-- The last `n` bytes of a number, the most significant first.
unfoldable pub to_be_bytes : ℕ → ℕ → Bytes
to_be_bytes zero v = []
to_be_bytes (suc n) v = to_be_bytes n (v / 256) ++ (v % 256) ∷ []

-- A reader of lowercase hexadecimal text, as a beacon has it.
hex_value : ℕ → Option ℕ
hex_value c =
    if leb b'0' c && leb c b'9'
    then some (c - b'0')
    else if leb b'a' c && leb c b'f'
    then some (c - b'a' + 10)
    else none

hex_byte : Option ℕ → Option ℕ → Option Bytes → Option Bytes
hex_byte (some h) (some l) (some bs) = some ((16 * h + l) ∷ bs)
hex_byte _ _ _ = none

pub hex_decode : Text → Option Bytes
unfolding hex_value hex_byte
hex_decode [] = some []
hex_decode (h ∷ []) = none
hex_decode (h ∷ l ∷ s) = hex_byte (hex_value h) (hex_value l) (hex_decode s)

hex_value-hex_digit : (d : ℕ) → d < 16 → hex_value (hex_digit d) ≡ some d
unfolding hex_value hex_digit
hex_value-hex_digit d h = ground arith

-- A reader of lowercase hexadecimal text gets the bytes back that were encoded.
pub hex_decode-hex_encode :
    (bs : Bytes) → All (λ b. b < 256) bs → hex_decode (hex_encode bs) ≡ some bs
unfolding hex_decode hex_encode
hex_decode-hex_encode [] h = refl
hex_decode-hex_encode (b ∷ bs) (h, hs) =
    rw
      (
        hex_value-hex_digit (b / 16) (omega arith),
        hex_value-hex_digit (b % 16) (omega arith),
        hex_decode-hex_encode bs hs,
      )
      (ground arith)

abbrev pub IsHexDigit : ℕ → Type 0
IsHexDigit c = ((b'0' ≤ c) × (c ≤ b'9')) ⊎ ((b'a' ≤ c) × (c ≤ b'f'))

hex_digit_shape : (d : ℕ) → d < 16 → IsHexDigit (hex_digit d)
unfolding hex_digit
hex_digit_shape d h = ground arith

-- The text has two characters for each byte, all of them lowercase hexadecimal digits.
pub hex_encode_shape :
    (bs : Bytes)
    → All (λ b. b < 256) bs
    → (length (hex_encode bs) ≡ 2 * length bs) × All IsHexDigit (hex_encode bs)
unfolding hex_encode
hex_encode_shape [] h = (refl, tt)
hex_encode_shape (b ∷ bs) (h, hs) =
    let (n, ds) = hex_encode_shape bs hs in
    (
      omega arith,
      (hex_digit_shape (b / 16) (omega arith), (hex_digit_shape (b % 16) (omega arith), ds)),
    )

pub length-to_be_bytes : (n v : ℕ) → length (to_be_bytes n v) ≡ n
unfolding to_be_bytes
length-to_be_bytes zero v = refl
length-to_be_bytes (suc n) v =
    length-append (to_be_bytes n (v / 256)) _ ∙ omega (arith, length-to_be_bytes n (v / 256))
