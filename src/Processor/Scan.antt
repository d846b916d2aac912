-- ===== src/Processor/Scan.antt =====
-- The two bit scans.
use native.Mathlib.Nat.{pow-le-pow_right}
use native.Mathlib.Decide.{dec_lt}
use brunix.Prelude.{
  ℕ, suc, ◌+◌, ◌*◌, ◌^◌, ◌≤◌, ◌<◌, ◌≡◌, ◌↔◌, refl, arith, ◌==◌, ==_iff, Bool-cases, inl, inr,
}
use brunix.Processor.{msb, lsb}

-- `bsr` and `bsf` as the processor's manual describes them: the highest and the lowest bit that is
-- set, the latter as the power of two that leaves an odd factor.
pub record IsScan (bsr bsf : ℕ → ℕ) : Type 0 where
  pub highest : (i : ℕ) → 0 < i → (2 ^ bsr i ≤ i) × (i < 2 ^ suc (bsr i))
  pub lowest : (i : ℕ) → 0 < i → (q : ℕ) × (i ≡ (2 * q + 1) * 2 ^ bsf i)

lt_of_pow : (a b : ℕ) → 2 ^ a < 2 ^ b → a < b
lt_of_pow a b h = elim (dec_lt a b) [
  | yes p ↦ p
  | no p ↦
      absurd (omega (arith, pow-le-pow_right {n = 2} (omega arith) {i = b} {j = a} (omega arith)))
]

lt_of_lt : (p q i m : ℕ) → i ≡ (2 * q + 1) * p → i < m → p < m
lt_of_lt p q i m e h = grind (arith, e, h)

-- For a `size_t`, `lsb` is at most `msb`, both are bit numbers below 32 for what is not 0, and 32 for 0.
lsb-le-msb :
    (bsr bsf : ℕ → ℕ) (i : ℕ)
    → IsScan bsr bsf
    → i < 2 ^ 32
    → (lsb bsf i ≤ msb bsr i)
      × (msb bsr i ≤ 32)
      × ((msb bsr i ≡ 32) ↔ (i ≡ 0))
      × ((lsb bsf i ≡ 32) ↔ (i ≡ 0))
unfolding msb lsb
lsb-le-msb bsr bsf i scan h = elim (Bool-cases (i == 0)) [
  | inl e ↦
      let none_set : i ≡ 0 = (==_iff i 0).0 e in
      rw e
        (omega arith, omega arith, ((λ _. none_set), (λ _. refl)), ((λ _. none_set), (λ _. refl)))
  | inr n ↦
      let pos : 0 < i = ground (arith, n) in
      let (low, high) = scan.highest i pos in
      let (q, odd) = scan.lowest i pos in
      let word : bsr i < 32 = lt_of_pow (bsr i) 32 (omega arith) in
      let order : bsf i < suc (bsr i) =
        lt_of_pow (bsf i) (suc (bsr i)) (lt_of_lt (2 ^ bsf i) q i (2 ^ suc (bsr i)) odd high) in
      rw n (
        omega arith,
        omega arith,
        ((λ e. absurd (omega arith)), (λ e. absurd (omega arith))),
        ((λ e. absurd (omega arith)), (λ e. absurd (omega arith))),
      )
]
