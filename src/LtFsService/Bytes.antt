-- ===== src/LtFsService/Bytes.antt =====
-- The bytes of a disk as what a read should answer.
use lt_micros.Base.{
  ℕ, zero, suc, ◌+◌, ◌-◌, ◌≤◌, ◌≡◌, refl, ap, ◌∙◌, List, [], ◌∷◌, ◌++◌, arith, length, take, drop,
}

-- The bytes of a disk from a place on.
abbrev pub bytes_at : (ℕ → ℕ) → ℕ → ℕ → List ℕ
bytes_at disk offset zero = []
bytes_at disk offset (suc n) = disk offset ∷ bytes_at disk (offset + 1) n

module _ (disk : ℕ → ℕ) where
  pub length-bytes_at : (offset n : ℕ) → length (bytes_at disk offset n) ≡ n
  length-bytes_at offset zero = refl
  length-bytes_at offset (suc n) = ap suc (length-bytes_at (offset + 1) n)

  moved : (a b n k : ℕ) → a ≡ b → n ≡ k → bytes_at disk a n ≡ bytes_at disk b k
  moved a b n k e f = ap (λ (i : ℕ). bytes_at disk i n) e ∙ ap (bytes_at disk b) f

  pub bytes_at-append :
      (offset n k : ℕ)
      → bytes_at disk offset n ++ bytes_at disk (offset + n) k ≡ bytes_at disk offset (n + k)
  bytes_at-append offset zero k = moved (offset + 0) offset k (0 + k) (omega arith) (omega arith)
  bytes_at-append offset (suc n) k =
      ap (◌∷◌ (disk offset)) (
        ap (◌++◌ (bytes_at disk (offset + 1) n))
          (moved (offset + suc n) (offset + 1 + n) k k (omega arith) refl)
        ∙ bytes_at-append (offset + 1) n k)
      ∙ moved offset offset (suc (n + k)) (suc n + k) refl (omega arith)

  pub drop-bytes_at :
      (offset n k : ℕ)
      → k ≤ n
      → drop k (bytes_at disk offset n) ≡ bytes_at disk (offset + k) (n - k)
  drop-bytes_at offset n zero h = moved offset (offset + 0) n (n - 0) (omega arith) (omega arith)
  drop-bytes_at offset zero (suc k) h = absurd (omega arith)
  drop-bytes_at offset (suc n) (suc k) h =
      drop-bytes_at (offset + 1) n k (omega arith)
      ∙ moved (offset + 1 + k) (offset + suc k) (n - k) (suc n - suc k) (omega arith) (omega arith)

  pub take-bytes_at :
      (offset n k : ℕ) → k ≤ n → take k (bytes_at disk offset n) ≡ bytes_at disk offset k
  take-bytes_at offset n zero h = refl
  take-bytes_at offset zero (suc k) h = absurd (omega arith)
  take-bytes_at offset (suc n) (suc k) h =
      ap (◌∷◌ (disk offset)) (take-bytes_at (offset + 1) n k (omega arith))
