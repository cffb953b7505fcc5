-- ===== src/Merkle/Equal.antt =====
-- `bytesEqual` of demo/verify.js accumulates differences bit by bit; it decides equality.
use Prim.Native.Nat.{bit_or, bit_xor, digits, differ, bit_or-bitwise, bit_xor-bitwise, max}
use mobydb_render_engine.Base.{
  ℕ, zero, suc, ◌/◌, ◌%◌, ◌≤◌, ◌≡◌, refl, sym, ap, ◌∙◌, ◌↔◌, true, [], ◌∷◌, length, arith,
}
use mobydb_render_engine.Merkle.{Bytes, diff_of, bytes_equal}

abbrev or_digits : ℕ → ℕ → ℕ → ℕ
or_digits n a b = digits (λ b. b) max n a b

abbrev xor_digits : ℕ → ℕ → ℕ → ℕ
xor_digits n a b = digits (λ b. b) differ n a b

or_digits-zero : (n a b : ℕ) → a ≤ n → or_digits n a b ≡ 0 → (a ≡ 0) × (b ≡ 0)
or_digits-zero zero zero b h e = (refl, e)
or_digits-zero zero (suc a) b h e = absurd (omega arith)
or_digits-zero (suc n) zero b h e = (refl, e)
or_digits-zero (suc n) (suc a) b h e =
    let ih = or_digits-zero n (suc a / 2) (b / 2) (omega arith) (omega arith) in
    absurd (omega arith)

differ-zero : (x y : ℕ) → differ x y ≡ 0 → x ≡ y
differ-zero zero y e = sym e
differ-zero (suc x) zero e = e
differ-zero (suc x) (suc y) e = ap suc (differ-zero x y e)

differ_self : (x : ℕ) → differ x x ≡ 0
differ_self zero = refl
differ_self (suc x) = differ_self x

xor_digits-zero : (n a b : ℕ) → a ≤ n → xor_digits n a b ≡ 0 → a ≡ b
xor_digits-zero zero zero b h e = sym e
xor_digits-zero zero (suc a) b h e = absurd (omega arith)
xor_digits-zero (suc n) zero b h e = sym e
xor_digits-zero (suc n) (suc a) b h e =
    let ih = xor_digits-zero n (suc a / 2) (b / 2) (omega arith) (omega arith) in
    let low = differ-zero (suc a % 2) (b % 2) (omega arith) in omega arith

xor_digits_self : (n a : ℕ) → a ≤ n → xor_digits n a a ≡ 0
xor_digits_self zero zero h = refl
xor_digits_self zero (suc a) h = absurd (omega arith)
xor_digits_self (suc n) zero h = refl
xor_digits_self (suc n) (suc a) h =
    omega (arith, xor_digits_self n (suc a / 2) (omega arith), differ_self (suc a % 2))

pub bit_or-zero : (a b : ℕ) → bit_or a b ≡ 0 → (a ≡ 0) × (b ≡ 0)
bit_or-zero a b e = or_digits-zero a a b (omega arith) (sym (bit_or-bitwise a b) ∙ e)

pub zero-bit_or : (b : ℕ) → bit_or 0 b ≡ b
zero-bit_or b = bit_or-bitwise 0 b

pub bit_xor-zero : (a b : ℕ) → bit_xor a b ≡ 0 → a ≡ b
bit_xor-zero a b e = xor_digits-zero a a b (omega arith) (sym (bit_xor-bitwise a b) ∙ e)

pub bit_xor_self : (a : ℕ) → bit_xor a a ≡ 0
bit_xor_self a = bit_xor-bitwise a a ∙ xor_digits_self a a (omega arith)

diff_of-zero : (d : ℕ) (a b : Bytes) → length a ≡ length b → diff_of d a b ≡ 0 → (d ≡ 0) × (a ≡ b)
unfolding diff_of
diff_of-zero d [] [] h e = (e, refl)
diff_of-zero d [] (y ∷ b) h e = absurd (omega arith)
diff_of-zero d (x ∷ a) [] h e = absurd (omega arith)
diff_of-zero d (x ∷ a) (y ∷ b) h e =
    let (none_yet, tails) = diff_of-zero (bit_or d (bit_xor x y)) a b (omega arith) e in
    let (zero_before, same) = bit_or-zero d (bit_xor x y) none_yet in
    (zero_before, cc (bit_xor-zero x y same, tails))

diff_of_self : (a : Bytes) → diff_of 0 a a ≡ 0
unfolding diff_of
diff_of_self [] = refl
diff_of_self (x ∷ a) = rw (bit_xor_self x, zero-bit_or 0) (diff_of_self a)

pub bytes_equal_sound : (a b : Bytes) → bytes_equal a b ≡ true → a ≡ b
unfolding bytes_equal
bytes_equal_sound a b h = (diff_of-zero 0 a b (ground arith) (ground arith)).1

pub bytes_equal_refl : (a : Bytes) → bytes_equal a a ≡ true
unfolding bytes_equal
bytes_equal_refl a = ground (arith, diff_of_self a)

-- `bytesEqual` answers true for equal byte arrays and for no others.
pub bytes_equal_iff : (a b : Bytes) → (bytes_equal a b ≡ true) ↔ (a ≡ b)
bytes_equal_iff a b = (bytes_equal_sound a b, λ e. rw e (bytes_equal_refl b))
