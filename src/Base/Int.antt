-- ===== src/Base/Int.antt =====
-- `parseInt` on the text of a whole number, and what its callers do with the result. Values are
-- exact: the source's are doubles, which agree below 2^53.
use Prim.Native.Nat.{ℕ, zero, suc, ◌+◌, ◌-◌, ◌*◌, ◌%◌}
use mathlib.Core.Bool.{Bool, ◌&&◌, ◌||◌}
use mathlib.Core.Option
use mathlib.Core.Option.{Option, none, some}
use mathlib.Core.List.{[], ◌∷◌}
use mobydb_render_engine.Base.Tests.{leb, ltb, ◌==◌, if◌then◌else◌}
use mobydb_render_engine.Base.Strings.{Text}

-- `negsuc n` is -(n + 1).
pub data ℤ : Type 0 where
  pos : ℕ → ℤ
  negsuc : ℕ → ℤ

abbrev pub negate : ℕ → ℤ
negate zero = pos 0
negate (suc n) = negsuc n

-- The white space and line ends that `parseInt`, `Number` and `trim` skip.
abbrev pub is_space : ℕ → Bool
is_space c =
    (leb 9 c && leb c 13)
    || (c == 32)
    || (c == 160)
    || (c == 0x1680)
    || (leb 0x2000 c && leb c 0x200a)
    || (c == 0x2028)
    || (c == 0x2029)
    || (c == 0x202f)
    || (c == 0x205f)
    || (c == 0x3000)
    || (c == 0xfeff)

abbrev pub trim_start : Text → Text
trim_start [] = []
trim_start (c ∷ s) = if is_space c then trim_start s else c ∷ s

-- The value of a digit in the radix.
abbrev pub digit_value : ℕ → Option ℕ
digit_value c =
    if leb b'0' c && leb c b'9'
    then some (c - b'0')
    else if leb b'a' c && leb c b'z'
    then some (c - b'a' + 10)
    else if leb b'A' c && leb c b'Z'
    then some (c - b'A' + 10)
    else none

abbrev pub digit_in : ℕ → ℕ → Option ℕ
digit_in radix c = elim (digit_value c) [
  | none ↦ none
  | some d ↦ if ltb d radix then some d else none
]

-- The longest prefix of digits; the accumulator is none until a digit is read.
abbrev pub read_digits : ℕ → Option ℕ → Text → Option ℕ
read_digits radix acc [] = acc
read_digits radix acc (c ∷ s) = elim (digit_in radix c) [
  | none ↦ acc
  | some d ↦ read_digits radix (some (Option.get_or acc 0 * radix + d)) s
]

abbrev pub strip_0x : ℕ → Text → Text
strip_0x radix (z ∷ (x ∷ s)) =
    if (radix == 16) && (z == b'0') && ((x == b'x') || (x == b'X')) then s else z ∷ (x ∷ s)
strip_0x radix s = s

abbrev pub parse_signed : ℕ → Text → Option ℤ
parse_signed radix [] = none
parse_signed radix (c ∷ s) =
    if c == b'-'
    then Option.map negate (read_digits radix none (strip_0x radix s))
    else if c == b'+'
    then Option.map pos (read_digits radix none (strip_0x radix s))
    else Option.map pos (read_digits radix none (strip_0x radix (c ∷ s)))

-- `parseInt(s, radix)`; `none` is NaN.
unfoldable pub parse_int : ℕ → Text → Option ℤ
parse_int radix s = parse_signed radix (trim_start s)

-- What an element of a `Uint8Array` holds after it is assigned a `parseInt` result.
unfoldable pub to_uint8 : Option ℤ → ℕ
to_uint8 none = 0
to_uint8 (some (pos n)) = n % 256
to_uint8 (some (negsuc n)) = 255 - n % 256
