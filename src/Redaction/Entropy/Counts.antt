-- ===== src/Redaction/Entropy/Counts.antt =====
-- The counts of bytes that shannon_entropy takes its probabilities from.
use clipy_si_core.Common.{
  ℕ, zero, suc, ◌+◌, ◌≤◌, ◌<◌, ◌≡◌, refl, ◌∙◌, ◌&&◌, leb, ltb, List, [], ◌∷◌, arith, length, All,
}
use clipy_si_core.Record.Words.{u32_mod}
use clipy_si_core.Redaction.Entropy.{count_flag, count_byte, positive_counts}
use clipy_si_core.Text.{Bytes, IsByte}

abbrev pub sum : List ℕ → ℕ
sum [] = 0
sum (c ∷ cs) = c + sum cs

-- How often the `n` values from `b` on occur.
total : ℕ → ℕ → Bytes → ℕ
total zero b run = 0
total (suc n) b run = count_byte b run + total n (b + 1) run

count_byte-bound : (b : ℕ) (run : Bytes) → count_byte b run ≤ length run
unfolding count_byte
count_byte-bound b [] = omega arith
count_byte-bound b (x ∷ xs) = ground (arith, count_byte-bound b xs)

sum-positive_counts :
    (n b : ℕ) (run : Bytes) → length run < u32_mod → sum (positive_counts n b run) ≡ total n b run
unfolding positive_counts total
sum-positive_counts zero b run h = refl
sum-positive_counts (suc n) b run h =
    ground (arith, sum-positive_counts n (b + 1) run h, count_byte-bound b run)

positive_counts-positive : (n b : ℕ) (run : Bytes) → All (λ c. 0 < c) (positive_counts n b run)
unfolding positive_counts
positive_counts-positive zero b run = tt
positive_counts-positive (suc n) b run = ground (arith, positive_counts-positive n (b + 1) run)

total-nil : (n b : ℕ) → total n b [] ≡ 0
unfolding total count_byte
total-nil zero b = refl
total-nil (suc n) b = omega (arith, total-nil n (b + 1))

total-cons :
    (n b x : ℕ) (xs : Bytes)
    → total n b (x ∷ xs) ≡ count_flag (leb b x && ltb x (b + n)) + total n b xs
unfolding total count_byte
total-cons zero b x xs = ground arith
total-cons (suc n) b x xs = ground (arith, total-cons n (b + 1) x xs)

total_bytes : (run : Bytes) → All IsByte run → total 256 0 run ≡ length run
total_bytes [] h = total-nil 256 0
total_bytes (x ∷ xs) h = ground (arith, total-cons 256 0 x xs, total_bytes xs h.1)

-- The counts that the entropy of a run of fewer than 2^32 bytes is taken from are positive and add
-- up to its length.
pub positive_counts_lem :
    (run : Bytes)
    → All IsByte run
    → length run < u32_mod
    → (sum (positive_counts 256 0 run) ≡ length run) × All (λ c. 0 < c) (positive_counts 256 0 run)
positive_counts_lem run b h =
    (sum-positive_counts 256 0 run h ∙ total_bytes run b, positive_counts-positive 256 0 run)
