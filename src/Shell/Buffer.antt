-- ===== src/Shell/Buffer.antt =====
-- The line as the bytes of `input_buffer`, and the terminator that Enter puts behind it.
use cane.Common.{
  ℕ, zero, suc, ◌+◌, ◌-◌, ◌≤◌, ◌<◌, ◌≡◌, refl, List, [], ◌∷◌, ◌++◌, arith, ◌∙◌, ap, length,
}
use cane.Common.Partial.{update}
use cane.Shell.{bytes}
use cane.Str.Cstring.{terminated}

pub bytes-eq :
    (b b' : ℕ → ℕ) (left i : ℕ)
    → ((n : ℕ) → i ≤ n → n < i + left → b n ≡ b' n)
    → bytes b left i ≡ bytes b' left i
unfolding bytes
bytes-eq b b' zero i h = refl
bytes-eq b b' (suc left) i h =
    rw (h i (omega arith) (omega arith))
      (ap (λ l. b' i ∷ l) (bytes-eq b b' left (i + 1) (λ n p q. h n (omega arith) (omega arith))))

pub bytes-append : (b : ℕ → ℕ) (k m i : ℕ) → bytes b (k + m) i ≡ bytes b k i ++ bytes b m (i + k)
unfolding bytes
bytes-append b zero m i =
    let z : 0 + m ≡ m = omega arith in let y : i + 0 ≡ i = omega arith in rw (z, y) refl
bytes-append b (suc k) m i =
    let z : suc k + m ≡ suc (k + m) = omega arith in
    let y : i + suc k ≡ i + 1 + k = omega arith in
    rw (z, y) (ap (λ l. b i ∷ l) (bytes-append b k m (i + 1)))

pub bytes_last : (b : ℕ → ℕ) (k i : ℕ) → bytes b (k + 1) i ≡ bytes b k i ++ (b (i + k) ∷ [])
unfolding bytes
bytes_last b k i = bytes-append b k 1 i

pub bytes_first :
    (b : ℕ → ℕ) (m i k : ℕ) → i ≡ k → b k ≡ 0 → bytes b (1 + m) i ≡ 0 ∷ bytes b m (k + 1)
unfolding bytes
bytes_first b m i k e z = bytes-append b 1 m i ∙ rw e (ap (λ c. c ∷ bytes b m (k + 1)) z)

-- The array, with the terminator that Enter puts in.
pub terminated_bytes :
    (b : ℕ → ℕ) (text : List ℕ)
    → length text < 256
    → bytes b (length text) 0 ≡ text
    → (rest : List ℕ) × (bytes (update b (length text) 0) 256 0 ≡ terminated text rest)
terminated_bytes b text h e =
    let k = length text in
    let b' : ℕ → ℕ = update b k 0 in
    let n : 256 ≡ k + (1 + (255 - k)) = omega arith in
    (
      bytes b' (255 - k) (k + 1),
      ap (λ n. bytes b' n 0) n
          ∙ bytes-append b' k (1 + (255 - k)) 0
          ∙ joined (bytes b' k 0) (bytes b' (1 + (255 - k)) (0 + k))
              (bytes-eq b' b k 0 (λ n p q. ground arith) ∙ e)
              (bytes_first b' (255 - k) (0 + k) k (omega arith) (ground arith)),
    )
  where
    joined :
        (xs ys : List ℕ) {zs : List ℕ} → xs ≡ text → ys ≡ 0 ∷ zs → xs ++ ys ≡ terminated text zs
    joined xs ys e f = rw (e, f) refl

pub length-bytes : (b : ℕ → ℕ) (k i : ℕ) → length (bytes b k i) ≡ k
unfolding bytes
length-bytes b zero i = refl
length-bytes b (suc k) i = omega (arith, length-bytes b k (i + 1))
