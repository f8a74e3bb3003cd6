-- ===== src/Common/Words.antt =====
-- Bytes and 16-bit words: the high and the low byte of a word, the word of two bytes, and the XOR
-- of a range of a buffer.
use Prim.Native.Nat.{ℕ, zero, suc, ◌+◌, ◌-◌, ◌*◌, ◌/◌, ◌%◌, ◌<◌, bit_or, bit_xor}
use mathlib.Core.Path.{◌≡◌, refl}
use mathlib.Core.Bool.{Bool, true, ◌&&◌}
use mathlib.Core.List.{List}
use native.Mathlib.Omega.{arith}
use linux_iot_gateway.Common.Tests.{◌==◌, ==_iff}
use linux_iot_gateway.Common.Lists.{get_or}

-- `(w >> 8) & 0xFF` and `w & 0xFF`, in the form of arithmetic.
abbrev pub high_byte : ℕ → ℕ
high_byte w = (w / 256) % 256

abbrev pub low_byte : ℕ → ℕ
low_byte w = w % 256

-- `static_cast<std::uint16_t>((hi << 8) | lo)`.
unfoldable pub word_of : ℕ → ℕ → ℕ
word_of hi lo = bit_or (hi * 256) lo % 65536

-- A test that holds of every byte below a bound.
holds_below : (ℕ → Bool) → ℕ → Bool
holds_below test zero = true
holds_below test (suc bound) = holds_below test bound && test bound

holds_below_lem :
    (test : ℕ → Bool) (bound byte : ℕ)
    → byte < bound
    → holds_below test bound ≡ true
    → test byte ≡ true
unfolding holds_below
holds_below_lem test (suc bound) byte small all = ground (arith, holds_below_lem test bound byte)
holds_below_lem test zero byte small all = absurd (omega arith)

abbrev is_word : ℕ → ℕ → Bool
is_word hi lo = word_of hi lo == hi * 256 + lo

words_checked : holds_below (λ hi. holds_below (is_word hi) 256) 256 ≡ true
unfolding holds_below word_of
words_checked = refl

pub word_of_lem : (hi lo : ℕ) → hi < 256 → lo < 256 → word_of hi lo ≡ hi * 256 + lo
word_of_lem hi lo small_hi small_lo =
    let row = holds_below_lem (λ h. holds_below (is_word h) 256) 256 hi small_hi words_checked in
    (==_iff (word_of hi lo) (hi * 256 + lo)).0 (holds_below_lem (is_word hi) 256 lo small_lo row)

-- A word is the word of its two bytes.
pub word_of-bytes : (w : ℕ) → w < 65536 → word_of (high_byte w) (low_byte w) ≡ w
word_of-bytes w h = omega (arith, word_of_lem (high_byte w) (low_byte w))

-- `checksum ^= bytes[index]` for so many indices from one on, in 8 bits. The callers check the
-- size first; a byte beyond the end would read as 0 here.
unfoldable pub xor_from : ℕ → ℕ → List ℕ → ℕ → ℕ
xor_from zero index bytes checksum = checksum
xor_from (suc count) index bytes checksum =
    xor_from count (suc index) bytes (bit_xor checksum (get_or bytes index 0) % 256)

unfoldable pub calculate_checksum : List ℕ → ℕ → ℕ → ℕ
unfolding xor_from
calculate_checksum bytes begin end_exclusive = xor_from (end_exclusive - begin) begin bytes 0
