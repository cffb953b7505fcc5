-- ===== src/Merkle/Hex.antt =====
-- The hex codec of demo/verify.js: round trip, and what `hexToBytes` lets through.
use mobydb_render_engine.Base.{
  ℕ, zero, suc, ◌*◌, ◌/◌, ◌%◌, ◌<◌, ◌≡◌, refl, true, false, [], ◌∷◌, ok, throw, Option, ℤ, ◌≤◌,
  Text, codes, starts_with, pad_start, length, All, arith, ◌==◌, ==_iff,
}
use mobydb_render_engine.Base.Int.{parse_int, to_uint8}
use mobydb_render_engine.Base.Tables.{all_below, all_below_sound}
use mobydb_render_engine.Merkle.{
  Bytes, hex_pairs, hex_to_bytes, hex_digit, byte_to_string16, bytes_to_hex, strip_prefix,
}

-- A byte array, as `Uint8Array` keeps it.
abbrev pub IsBytes : Bytes → Type 0
IsBytes bs = All (λ b. b < 256) bs

-- A byte is written with two digits.
pad_start-byte :
    (b : ℕ)
    → b < 256
    → pad_start 2 b'0' (byte_to_string16 b) ≡ hex_digit (b / 16) ∷ hex_digit (b % 16) ∷ []
pad_start-byte b h = ground arith

digits_table :
    all_below 256 (λ b. to_uint8 (parse_int 16 (hex_digit (b / 16) ∷ hex_digit (b % 16) ∷ [])) == b)
    ≡ true
unfolding all_below to_uint8 parse_int
digits_table = refl

read_digits-byte :
    (b : ℕ) → b < 256 → to_uint8 (parse_int 16 (hex_digit (b / 16) ∷ hex_digit (b % 16) ∷ [])) ≡ b
read_digits-byte b h = (==_iff _ b).0 (all_below_sound _ 256 h digits_table)

pub hex_pairs-bytes_to_hex : (bs : Bytes) → IsBytes bs → hex_pairs (bytes_to_hex bs) ≡ bs
unfolding hex_pairs bytes_to_hex
hex_pairs-bytes_to_hex [] h = refl
hex_pairs-bytes_to_hex (b ∷ bs) (p, h) =
    rw (pad_start-byte b p, read_digits-byte b p, hex_pairs-bytes_to_hex bs h)

pub length-bytes_to_hex : (bs : Bytes) → IsBytes bs → length (bytes_to_hex bs) ≡ length bs * 2
unfolding bytes_to_hex
length-bytes_to_hex [] h = refl
length-bytes_to_hex (b ∷ bs) (p, h) =
    rw (pad_start-byte b p) (omega (arith, length-bytes_to_hex bs h))

hex_digit-ne-x : (d : ℕ) → d < 16 → (hex_digit d == b'x') ≡ false
hex_digit-ne-x d h = ground arith

bytes_to_hex_no_prefix :
    (bs : Bytes) → IsBytes bs → starts_with (bytes_to_hex bs) (codes "0x") ≡ false
unfolding bytes_to_hex
bytes_to_hex_no_prefix [] h = refl
bytes_to_hex_no_prefix (b ∷ bs) (p, h) =
    rw (pad_start-byte b p) (ground (arith, hex_digit-ne-x (b % 16) (omega arith)))

-- Decoding what was encoded gives back every byte array.
pub hex_to_bytes-bytes_to_hex : (bs : Bytes) → IsBytes bs → hex_to_bytes (bytes_to_hex bs) ≡ ok bs
unfolding hex_to_bytes
hex_to_bytes-bytes_to_hex bs h =
    rw (bytes_to_hex_no_prefix bs h)
      (ground (arith, length-bytes_to_hex bs h, hex_pairs-bytes_to_hex bs h))

hex_pairs-length_fuel : (n : ℕ) (s : Text) → length s ≡ n * 2 → length (hex_pairs s) ≡ n
unfolding hex_pairs
hex_pairs-length_fuel zero [] h = refl
hex_pairs-length_fuel zero (a ∷ s) h = absurd (omega arith)
hex_pairs-length_fuel (suc n) [] h = absurd (omega arith)
hex_pairs-length_fuel (suc n) (a ∷ []) h = absurd (omega arith)
hex_pairs-length_fuel (suc n) (a ∷ (b ∷ s)) h =
    omega (arith, hex_pairs-length_fuel n s (omega arith))

to_uint8-lt : (v : Option ℤ) → to_uint8 v < 256
unfolding to_uint8
to_uint8-lt v = ground arith

hex_pairs-IsBytes_fuel : (n : ℕ) (s : Text) → length s ≤ n → IsBytes (hex_pairs s)
unfolding hex_pairs
hex_pairs-IsBytes_fuel n [] h = tt
hex_pairs-IsBytes_fuel n (a ∷ []) h = tt
hex_pairs-IsBytes_fuel zero (a ∷ (b ∷ s)) h = absurd (omega arith)
hex_pairs-IsBytes_fuel (suc n) (a ∷ (b ∷ s)) h =
    (to_uint8-lt _, hex_pairs-IsBytes_fuel n s (omega arith))

-- Text of even length after an optional 0x, of any characters, is decoded to half as many bytes.
pub hex_to_bytes_accepts :
    (s : Text)
    → length (strip_prefix s) % 2 ≡ 0
    → (bs : Bytes) × (hex_to_bytes s ≡ ok bs)
      × (length bs * 2 ≡ length (strip_prefix s))
      × IsBytes bs
unfolding hex_to_bytes
hex_to_bytes_accepts s h =
    let clean = strip_prefix s in
    (
      hex_pairs clean,
      ground arith,
      omega (arith, hex_pairs-length_fuel (length clean / 2) clean (omega arith)),
      hex_pairs-IsBytes_fuel (length clean) clean (omega arith),
    )

-- Text of odd length is refused with the message.
pub hex_to_bytes_odd :
    (s : Text) → length (strip_prefix s) % 2 ≡ 1 → hex_to_bytes s ≡ throw (codes "odd-length hex")
unfolding hex_to_bytes
hex_to_bytes_odd s h = ground arith
