-- ===== src/Errno/Distinct.antt =====
-- No number of the header has two names, whatever the compilation defines.
use mathlib.Core.Option.{some-injective, none-ne-some}
use brunix.Prelude.{
  ℕ, ◌<◌, ◌≡◌, ◌⊎◌, refl, sym, ap, ap₂, ◌∙◌, arith, Bool, true, ltb, ◌&&◌, ◌==◌, if◌then◌else◌,
  Bool-cases, inl, inr, Option, some, none, List, [], ◌∷◌,
}
use brunix.Errno.{Line, Macros, errno, expand, is_active, same_name}

-- The numbers of the lines ascend from above `low`.
unfoldable pub ascending : ℕ → List Line → Bool
ascending low [] = true
ascending low (line ∷ lines) = ltb low line.number && ascending line.number lines

-- The name that the lines give a number.
unfoldable pub name_of : ℕ → List Line → Option (List ℕ)
name_of n [] = none
name_of n (line ∷ lines) = if n == line.number then some line.name else name_of n lines

same_name-≡ : (s t : List ℕ) → same_name s t ≡ true → s ≡ t
unfolding same_name
same_name-≡ [] [] h = refl
same_name-≡ [] (d ∷ t) h = ground arith
same_name-≡ (c ∷ s) [] h = ground arith
same_name-≡ (c ∷ s) (d ∷ t) h =
    let here : c ≡ d = ground arith in
    let there : same_name s t ≡ true = ground arith in
    ap₂ (λ c s. c ∷ s) here (same_name-≡ s t there)

-- The first line is above `low`, and the others above it.
ascending-cons :
    (low : ℕ) (line : Line) (lines : List Line)
    → ascending low (line ∷ lines) ≡ true
    → (low < line.number) × (ascending line.number lines ≡ true)
unfolding ascending
ascending-cons low line lines up = (ground arith, ground arith)

-- A name that has a number has that of the first line or of a later one.
expand-cons :
    (macros : Macros) (name : List ℕ) (n : ℕ) (line : Line) (lines : List Line)
    → expand macros name (line ∷ lines) ≡ some n
    → ((name ≡ line.name) × (line.number ≡ n)) ⊎ (expand macros name lines ≡ some n)
unfolding expand
expand-cons macros name n line lines h = elim (Bool-cases (same_name name line.name)) [
  | inl e ↦ elim (Bool-cases (is_active macros line.condition)) [
    | inl a ↦ inl (same_name-≡ name line.name e, ground arith)
    | inr a ↦ inr (ground arith)
  ]
  | inr e ↦ inr (ground arith)
]

expand-above :
    (macros : Macros) (name : List ℕ) (n low : ℕ) (lines : List Line)
    → ascending low lines ≡ true
    → expand macros name lines ≡ some n
    → low < n
unfolding expand
expand-above macros name n low [] up h = absurd (none-ne-some n h)
expand-above macros name n low (line ∷ lines) up h =
    let (here, above) = ascending-cons low line lines up in
    elim (expand-cons macros name n line lines h) [
      | inl (same, e) ↦ omega (arith, e, here)
      | inr rest ↦ omega (arith, here, expand-above macros name n line.number lines above rest)
    ]

name_of-expand :
    (macros : Macros) (name : List ℕ) (n low : ℕ) (lines : List Line)
    → ascending low lines ≡ true
    → expand macros name lines ≡ some n
    → name_of n lines ≡ some name
unfolding name_of expand
name_of-expand macros name n low [] up h = absurd (none-ne-some n h)
name_of-expand macros name n low (line ∷ lines) up h =
    let (here, above) = ascending-cons low line lines up in
    elim (expand-cons macros name n line lines h) [
      | inl (same, e) ↦
          (let found : name_of n (line ∷ lines) ≡ some line.name = ground arith in
            found ∙ ap some (sym same))
      | inr rest ↦
          let later = expand-above macros name n line.number lines above rest in
          ground (arith, name_of-expand macros name n line.number lines above rest)
    ]

errno-ascends : ascending 0 errno ≡ true
unfolding ascending
errno-ascends = refl

-- A number that a name stands for is not 0, the success, and belongs to no other name, even where
-- the compilation of the other name defines different macros.
pub expand_distinct :
    (macros others : Macros) (name other : List ℕ) (n : ℕ)
    → expand macros name errno ≡ some n
    → expand others other errno ≡ some n
    → (0 < n) × (name ≡ other)
expand_distinct macros others name other n h k = (
  expand-above macros name n 0 errno errno-ascends h,
  some-injective name other (
      sym (name_of-expand macros name n 0 errno errno-ascends h)
      ∙ name_of-expand others other n 0 errno errno-ascends k),
)
