-- ===== src/Base/LittleEndian.antt =====
-- Words of 32 bits as four bytes, the lowest first.
use Prim.Native.Nat.{ℕ, ◌+◌, ◌*◌, ◌/◌, ◌%◌, ◌^◌, ◌<◌}
use mathlib.Core.Path.{◌≡◌}
use mathlib.Core.List.{List, [], ◌∷◌}
use native.Mathlib.Omega.{arith}

unfoldable pub word_bytes : ℕ → List ℕ
word_bytes w = (w % 256) ∷ (w / 256 % 256) ∷ (w / 65536 % 256) ∷ (w / 16777216 % 256) ∷ []

-- What four bytes stand for.
unfoldable pub word_of : (a b c d : ℕ) → ℕ
word_of a b c d = a + 256 * b + 65536 * c + 16777216 * d

pub word_of-word_bytes :
    (w : ℕ)
    → w < 2 ^ 32
    → word_of (w % 256) (w / 256 % 256) (w / 65536 % 256) (w / 16777216 % 256) ≡ w
unfolding word_of
word_of-word_bytes w h = omega arith
