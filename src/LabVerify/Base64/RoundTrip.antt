-- ===== src/LabVerify/Base64/RoundTrip.antt =====
-- Every byte array survives `bytesToB64u` followed by `b64uToBytes`.
use mobydb_render_engine.Base.{
  ℕ, zero, suc, ◌+◌, ◌-◌, ◌*◌, ◌/◌, ◌%◌, ◌≤◌, ◌<◌, ◌≡◌, refl, ap, Bool, true, false, ◌&&◌, Option,
  none, some, [], ◌∷◌, ◌++◌, map, ok, Text, length, length-append, replicate, length-replicate,
  keep, not, All, arith, ◌==◌, ==_iff,
}
use mobydb_render_engine.Base.Tables.{all_below, all_below_sound}
use mobydb_render_engine.LabVerify.Base64.{
  Bytes, from_url, to_url, symbol, sextet, is_ascii_space, drop_pad, value_of, decode, atob, btoa,
  strip_equals, b64u_to_bytes, bytes_to_b64u,
}

-- The symbols of an encoding without its padding.
plain : Bytes → Text
plain [] = []
plain (a ∷ []) = symbol (a / 4) ∷ symbol (a % 4 * 16) ∷ []
plain (a ∷ (b ∷ [])) = symbol (a / 4) ∷ symbol (a % 4 * 16 + b / 16) ∷ symbol (b % 16 * 4) ∷ []
plain (a ∷ (b ∷ (c ∷ s))) =
    symbol (a / 4)
    ∷ symbol (a % 4 * 16 + b / 16)
    ∷ symbol (b % 16 * 4 + c / 64)
    ∷ symbol (c % 64)
    ∷ plain s

abbrev is_some_of : ℕ → Option ℕ → Bool
is_some_of d none = false
is_some_of d (some e) = e == d

symbols_table :
    all_below 64 (λ d.
      is_some_of d (sextet (symbol d))
      && (from_url (to_url (symbol d)) == symbol d)
      && not (symbol d == b'=')
      && not (to_url (symbol d) == b'=')
      && not (is_ascii_space (symbol d)))
    ≡ true
unfolding all_below
symbols_table = refl

-- What the table says of one symbol.
record IsSymbol (c : ℕ) : Type 0 where
  unurl : from_url (to_url c) ≡ c
  no_pad : (c == b'=') ≡ false
  no_pad_url : (to_url c == b'=') ≡ false
  no_space : is_ascii_space c ≡ false

symbol-IsSymbol : (d : ℕ) → d < 64 → IsSymbol (symbol d)
symbol-IsSymbol d h =
    let all = all_below_sound _ 64 h symbols_table in
    record {
      unurl = (==_iff _ _).0 (ground arith);
      no_pad = ground arith;
      no_pad_url = ground arith;
      no_space = ground arith;
    }

is_some_of_sound : (d : ℕ) (o : Option ℕ) → is_some_of d o ≡ true → o ≡ some d
is_some_of_sound d none h = ground arith
is_some_of_sound d (some e) h = ap some ((==_iff e d).0 h)

value_of-symbol : (d : ℕ) → d < 64 → value_of (symbol d) ≡ ok d
value_of-symbol d h =
    let found : is_some_of d (sextet (symbol d)) ≡ true =
      let all = all_below_sound _ 64 h symbols_table in ground arith in
    rw (is_some_of_sound d (sextet (symbol d)) found, value_of)

plain-IsSymbol : (bs : Bytes) → All (λ b. b < 256) bs → All IsSymbol (plain bs)
unfolding plain
plain-IsSymbol [] h = tt
plain-IsSymbol (a ∷ []) h =
    (symbol-IsSymbol (a / 4) (omega arith), (symbol-IsSymbol (a % 4 * 16) (omega arith), tt))
plain-IsSymbol (a ∷ (b ∷ [])) h = (
  symbol-IsSymbol (a / 4) (omega arith),
  (
    symbol-IsSymbol (a % 4 * 16 + b / 16) (omega arith),
    (symbol-IsSymbol (b % 16 * 4) (omega arith), tt),
  ),
)
plain-IsSymbol (a ∷ (b ∷ (c ∷ s))) (p, (q, (r, h))) = (
  symbol-IsSymbol (a / 4) (omega arith),
  (
    symbol-IsSymbol (a % 4 * 16 + b / 16) (omega arith),
    (
      symbol-IsSymbol (b % 16 * 4 + c / 64) (omega arith),
      (symbol-IsSymbol (c % 64) (omega arith), plain-IsSymbol s h),
    ),
  ),
)

decode-plain : (bs : Bytes) → All (λ b. b < 256) bs → decode (plain bs) ≡ ok bs
unfolding decode plain
decode-plain [] h = refl
decode-plain (a ∷ []) h =
    rw (value_of-symbol (a / 4) (omega arith), value_of-symbol (a % 4 * 16) (omega arith))
      (ground arith)
decode-plain (a ∷ (b ∷ [])) h =
    rw
      (
        value_of-symbol (a / 4) (omega arith),
        value_of-symbol (a % 4 * 16 + b / 16) (omega arith),
        value_of-symbol (b % 16 * 4) (omega arith),
      )
      (ground arith)
decode-plain (a ∷ (b ∷ (c ∷ s))) (p, (q, (r, h))) =
    rw
      (
        value_of-symbol (a / 4) (omega arith),
        value_of-symbol (a % 4 * 16 + b / 16) (omega arith),
        value_of-symbol (b % 16 * 4 + c / 64) (omega arith),
        value_of-symbol (c % 64) (omega arith),
        decode-plain s h,
      )
      (ground arith)

-- How many `=` the standard encoding ends in.
pads : Bytes → ℕ
pads [] = 0
pads (a ∷ []) = 2
pads (a ∷ (b ∷ [])) = 1
pads (a ∷ (b ∷ (c ∷ s))) = pads s

pads_lem : (bs : Bytes) → (pads bs ≤ 2) × ((length (plain bs) + pads bs) % 4 ≡ 0)
unfolding pads plain
pads_lem [] = omega arith
pads_lem (a ∷ []) = omega arith
pads_lem (a ∷ (b ∷ [])) = omega arith
pads_lem (a ∷ (b ∷ (c ∷ s))) = omega (arith, pads_lem s)

btoa-plain : (bs : Bytes) → btoa bs ≡ plain bs ++ replicate (pads bs) b'='
unfolding btoa plain pads
btoa-plain [] = refl
btoa-plain (a ∷ []) = refl
btoa-plain (a ∷ (b ∷ [])) = refl
btoa-plain (a ∷ (b ∷ (c ∷ s))) = rw (btoa-plain s)

strip_equals-replicate : (k : ℕ) → strip_equals (map to_url (replicate k b'=')) ≡ []
unfolding strip_equals
strip_equals-replicate zero = refl
strip_equals-replicate (suc k) = rw (strip_equals-replicate k)

strip_equals-append :
    (t u : Text)
    → All IsSymbol t
    → strip_equals (map to_url u) ≡ []
    → strip_equals (map to_url (t ++ u)) ≡ map to_url t
unfolding strip_equals
strip_equals-append [] u h e = e
strip_equals-append (c ∷ t) u (p, h) e = ground (arith, p.no_pad_url, strip_equals-append t u h e)

from_to_url : (t : Text) → All IsSymbol t → map from_url (map to_url t) ≡ t
from_to_url [] h = refl
from_to_url (c ∷ t) (p, h) = cc (p.unurl, from_to_url t h)

keep-symbols :
    (t : Text) (k : ℕ)
    → All IsSymbol t
    → keep (λ c. not (is_ascii_space c)) (t ++ replicate k b'=') ≡ t ++ replicate k b'='
keep-symbols [] zero h = refl
keep-symbols [] (suc k) h = rw (keep-symbols [] k h)
keep-symbols (c ∷ t) k (p, h) = rw (p.no_space, keep-symbols t k h)

drop_pad-replicate :
    (t : Text) (k : ℕ) → k ≤ 2 → All IsSymbol t → drop_pad (t ++ replicate k b'=') ≡ t
drop_pad-replicate [] zero k h = refl
drop_pad-replicate (c ∷ []) zero k (p, h) = rw p.no_pad
drop_pad-replicate (c ∷ (d ∷ [])) zero k (p, (q, h)) = rw q.no_pad
drop_pad-replicate (c ∷ (d ∷ (e ∷ t))) zero k (p, h) =
    ap (λ r. c ∷ r) (drop_pad-replicate (d ∷ (e ∷ t)) zero k h)
drop_pad-replicate [] (suc zero) k h = refl
drop_pad-replicate (c ∷ []) (suc zero) k (p, h) = rw p.no_pad
drop_pad-replicate (c ∷ (d ∷ [])) (suc zero) k (p, h) =
    ap (λ r. c ∷ r) (drop_pad-replicate (d ∷ []) (suc zero) k h)
drop_pad-replicate (c ∷ (d ∷ (e ∷ t))) (suc zero) k (p, h) =
    ap (λ r. c ∷ r) (drop_pad-replicate (d ∷ (e ∷ t)) (suc zero) k h)
drop_pad-replicate [] (suc (suc zero)) k h = refl
drop_pad-replicate (c ∷ []) (suc (suc zero)) k h = refl
drop_pad-replicate (c ∷ (d ∷ [])) (suc (suc zero)) k (p, h) =
    ap (λ r. c ∷ r) (drop_pad-replicate (d ∷ []) (suc (suc zero)) k h)
drop_pad-replicate (c ∷ (d ∷ (e ∷ t))) (suc (suc zero)) k (p, h) =
    ap (λ r. c ∷ r) (drop_pad-replicate (d ∷ (e ∷ t)) (suc (suc zero)) k h)
drop_pad-replicate t (suc (suc (suc n))) k h = absurd (omega arith)

atob-symbols :
    (t : Text) (k : ℕ)
    → k ≤ 2
    → (length t + k) % 4 ≡ 0
    → All IsSymbol t
    → atob (t ++ replicate k b'=') ≡ decode t
unfolding atob
atob-symbols t k small whole h =
    let same = keep-symbols t k h in
    let full : length (t ++ replicate k b'=') % 4 ≡ 0 =
      omega (arith, length-append t (replicate k b'='), length-replicate {A = ℕ} k b'=') in
    rw same (ground (arith, full, drop_pad-replicate t k small h))

-- Encoding and then decoding gives back every byte array.
pub b64u_to_bytes-bytes_to_b64u :
    (bs : Bytes) → All (λ b. b < 256) bs → b64u_to_bytes (bytes_to_b64u bs) ≡ ok bs
unfolding b64u_to_bytes bytes_to_b64u
b64u_to_bytes-bytes_to_b64u bs h =
    let all = plain-IsSymbol bs h in
    rw
      (
        btoa-plain bs,
        strip_equals-append (plain bs) (replicate (pads bs) b'=') all
            (strip_equals-replicate (pads bs)),
        from_to_url (plain bs) all,
        (let k : (4 - length (plain bs) % 4) % 4 ≡ pads bs = omega (arith, pads_lem bs) in k),
        atob-symbols (plain bs) (pads bs) (pads_lem bs).0 (pads_lem bs).1 all,
      )
      (decode-plain bs h)
