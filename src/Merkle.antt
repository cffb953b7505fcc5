-- ===== src/Merkle.antt =====
-- demo/verify.js: hex, the Merkle path, and the offline check of a provenance bundle. The imports
-- from esm.sh, `blake3` and `ed25519.verify`, are parameters; a verification that throws is `throw`.
pub mod Hex
pub mod Equal
pub mod Tree
pub mod Binding
pub mod Verify
mod Tests
use Prim.Native.Nat.{bit_or, bit_xor}
use mobydb_render_engine.Base.{
  ℕ, zero, suc, ◌+◌, ◌-◌, ◌/◌, ◌%◌, Bool, true, false, ◌&&◌, Option, none, some, List, [], ◌∷◌,
  ◌++◌, map, Result, ok, throw, ◌>>=◌, Text, codes, starts_with, pad_start, drop, length, ltb, ◌==◌,
  if◌then◌else◌,
}
use mobydb_render_engine.Base.Int.{parse_int, to_uint8}
use mobydb_render_engine.Base.Errors.{traverse}

abbrev pub Bytes : Type 0
Bytes = List ℕ

-- The loop of `hexToBytes`: two characters make a byte, whatever they are.
unfoldable pub hex_pairs : Text → Bytes
hex_pairs (a ∷ (b ∷ s)) = to_uint8 (parse_int 16 (a ∷ b ∷ [])) ∷ hex_pairs s
hex_pairs _ = []

abbrev strip_prefix : Text → Text
strip_prefix hex = if starts_with hex (codes "0x") then drop 2 hex else hex

unfoldable pub hex_to_bytes : Text → Result Bytes
unfolding hex_pairs
hex_to_bytes hex =
    let clean = strip_prefix hex in
    if length clean % 2 == 0 then ok (hex_pairs clean) else throw (codes "odd-length hex")

abbrev pub hex_digit : ℕ → ℕ
hex_digit d = if ltb d 10 then b'0' + d else b'a' + (d - 10)

-- `b.toString(16)` of a byte.
abbrev pub byte_to_string16 : ℕ → Text
byte_to_string16 b =
    if ltb b 16 then hex_digit b ∷ [] else hex_digit (b / 16) ∷ hex_digit (b % 16) ∷ []

unfoldable pub bytes_to_hex : Bytes → Text
bytes_to_hex [] = []
bytes_to_hex (b ∷ bs) = pad_start 2 b'0' (byte_to_string16 b) ++ bytes_to_hex bs

pub concat : Bytes → Bytes → Bytes
concat a b = a ++ b

-- The loop of `bytesEqual`, over the two arrays at once.
unfoldable pub diff_of : ℕ → Bytes → Bytes → ℕ
diff_of diff (x ∷ a) (y ∷ b) = diff_of (bit_or diff (bit_xor x y)) a b
diff_of diff _ _ = diff

unfoldable pub bytes_equal : Bytes → Bytes → Bool
unfolding diff_of
bytes_equal a b = if length a == length b then diff_of 0 a b == 0 else false

-- The object that `get_provenance` returns, as far as the verifier reads it.
pub record Provenance : Type 0 where
  pub signature : Text
  pub identity_pk : Text
  pub content_hash : Text
  pub merkle_proof : List Text
  pub leaf_index : ℕ
  pub merkle_root : Text

-- The verifier's answer; the fields that a branch leaves out are `none`.
pub record Verdict : Type 0 where
  pub is_ok : Bool
  pub sig_ok : Bool
  pub root_ok : Bool
  pub reconstructed_hex : Option Text
  pub stored_hex : Option Text
  pub error : Option Text

module _ (blake3 : Bytes → Bytes) where
  pub reconstruct_root : Bytes → List Bytes → ℕ → Bytes
  unfolding concat
  reconstruct_root node [] idx = node
  reconstruct_root node (sib ∷ siblings) idx =
      reconstruct_root (blake3 (if idx % 2 == 1 then concat sib node else concat node sib)) siblings
        (idx / 2)

-- The `catch`.
abbrev pub caught : Result Verdict → Verdict
caught (ok v) = v
caught (throw e) = record {
  is_ok = false;
  sig_ok = false;
  root_ok = false;
  reconstructed_hex = none;
  stored_hex = none;
  error = some e;
}

module _ (blake3 : Bytes → Bytes) (ed25519_verify : Bytes → Bytes → Bytes → Result Bool) where
  -- The body of the `try`.
  unfoldable pub checked : Provenance → Result Verdict
  unfolding hex_to_bytes
  checked p = do
    sig ← hex_to_bytes p.signature
    pk ← hex_to_bytes p.identity_pk
    ch ← hex_to_bytes p.content_hash
    sig_ok ← ed25519_verify sig ch pk
    siblings ← traverse hex_to_bytes p.merkle_proof
    let reconstructed = reconstruct_root blake3 ch siblings p.leaf_index
    stored ← hex_to_bytes p.merkle_root
    let root_ok = bytes_equal reconstructed stored
    ok (record {
      is_ok = sig_ok && root_ok;
      sig_ok = sig_ok;
      root_ok = root_ok;
      reconstructed_hex = some (bytes_to_hex reconstructed);
      stored_hex = some p.merkle_root;
      error = none;
    })

  unfoldable pub verify_provenance : Provenance → Verdict
  unfolding checked
  verify_provenance p = caught (checked p)
