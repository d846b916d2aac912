-- ===== src/Prelude/Loops.antt =====
-- Counted loops.
use Prim.Native.Nat.{ℕ, zero, suc, ◌+◌, ◌<◌, ◌≤◌}
use mathlib.Core.Path.{◌≡◌}
use native.Mathlib.Omega.{arith}

-- `for (k = i; k < i + n; k++) s = body k s;`
unfoldable pub for_up {ℓ} : {S : Type ℓ} → ℕ → ℕ → (ℕ → S → S) → S → S
for_up zero i body s = s
for_up (suc n) i body s = for_up n (i + 1) body (body i s)

-- What holds before the loop and is handed on by each round holds behind it.
pub for_up_inv {ℓ κ} :
    {S : Type ℓ} (P : ℕ → S → Type κ) (body : ℕ → S → S) (n i j : ℕ) (s : S)
    → ((k : ℕ) (t : S) → i ≤ k → k < j → P k t → P (k + 1) (body k t))
    → i + n ≡ j
    → P i s
    → P j (for_up n i body s)
unfolding for_up
for_up_inv P body zero i j s keep e h = let e' : i ≡ j = omega arith in rw (← e') h
for_up_inv P body (suc n) i j s keep e h =
    for_up_inv P body n (i + 1) j (body i s) (λ k t low. keep k t (omega arith)) (omega arith)
      (keep i s (omega arith) (omega arith) h)
