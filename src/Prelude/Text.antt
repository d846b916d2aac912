-- ===== src/Prelude/Text.antt =====
-- C strings: bytes up to the first NUL.
use Prim.Native.Nat.{ℕ, zero, suc}
use Prim.Native.Char.{code}
use Prim.Native.String.{String}
use mathlib.Core.Path.{◌≡◌, refl, ap}
use mathlib.Core.List.{List, [], ◌∷◌, ◌++◌}

-- The bytes of a text literal.
abbrev pub codes : String → List ℕ
codes String.[] = []
codes (String.◌∷◌ c s) = code c ∷ codes s

-- The string that a pointer to these bytes stands for.
abbrev pub c_string : List ℕ → List ℕ
c_string [] = []
c_string (zero ∷ s) = []
c_string (suc c ∷ s) = suc c ∷ c_string s

-- No byte is NUL.
abbrev pub NoNul : List ℕ → Type 0
NoNul [] = Unit {0}
NoNul (zero ∷ s) = ⊥
NoNul (suc c ∷ s) = NoNul s

pub c_string-NoNul : (s : List ℕ) → NoNul s → c_string s ≡ s
c_string-NoNul [] h = refl
c_string-NoNul (zero ∷ s) h = absurd h
c_string-NoNul (suc c ∷ s) h = ap (λ t. suc c ∷ t) (c_string-NoNul s h)

-- A terminator ends the string.
pub c_string-append : (s t : List ℕ) → NoNul s → c_string (s ++ (0 ∷ t)) ≡ s
c_string-append [] t h = refl
c_string-append (zero ∷ s) t h = absurd h
c_string-append (suc c ∷ s) t h = ap (λ r. suc c ∷ r) (c_string-append s t h)

pub NoNul-append : (s t : List ℕ) → NoNul s → NoNul t → NoNul (s ++ t)
NoNul-append [] t h k = k
NoNul-append (zero ∷ s) t h k = absurd h
NoNul-append (suc c ∷ s) t h k = NoNul-append s t h k
