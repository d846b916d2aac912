-- ===== src/Stubs/Frames.antt =====
-- arch/x86/kernel/interrupt.asm: what the C functions are called with, and what is resumed.
use native.Mathlib.Nat.{mod-eq_of_lt}
use mathlib.Core.Path.{subst}
use brunix.Prelude.{
  ℕ, suc, ◌+◌, ◌-◌, ◌*◌, ◌/◌, ◌^◌, ◌<◌, ◌≡◌, sym, ap, ◌∙◌, arith, bit_and, leb, ◌==◌, ◌&&◌, ◌||◌,
  Bool, true, false, if◌then◌else◌, u16, u32, Option, some, none, List, ◌∷◌, length,
}
use brunix.Kernel.{Kernel, Registers, Outcome}
use brunix.Stubs.{
  Cpu, push, Macro, isr_noerrcode, isr_errcode, isr_macro, isr, save, frame, Clobbered, restore,
  ended, common_stub,
}

-- The processor's own part of an interrupt through a gate of the same privilege: it pushes three
-- words, clears the flag of interrupts and pushes the error code, where there is one.
abbrev pub enter : Option ℕ → Cpu → Cpu
enter err s =
    let s1 = push s.eip (push s.cs (push s.eflags s)) in
    let s2 = record s1 { eflags = bit_and s1.eflags (2 ^ 32 - 1 - 2 ^ 9) } in
    elim err [ none ↦ s2 | some e ↦ push e s2 ]

-- The exceptions with an error code; later processors than those of 32 bits have 21, 29 and 30.
unfoldable pub has_error_code : ℕ → Bool
has_error_code n = n == 8 || leb 10 n && leb n 14 || n == 17 || n == 21 || n == 29 || n == 30

-- Those of them whose stub is made for an exception without one.
abbrev pub two_codes : ℕ → Bool
two_codes n = n == 17 || n == 21 || n == 29 || n == 30

abbrev pub error_code : ℕ → ℕ → Option ℕ
error_code n code = if has_error_code n then some code else none

-- The macros tell the exceptions with an error code from the others, but for four vectors.
macro_code :
    (n : ℕ) (m : Macro)
    → isr_macro n ≡ some m
    → two_codes n ≡ false
    → has_error_code n ≡ (elim m [ isr_noerrcode ↦ false | isr_errcode ↦ true ])
unfolding isr_macro has_error_code
macro_code n isr_noerrcode e other = ground arith
macro_code n isr_errcode e other = ground arith

-- The registers have their widths, and the stack two words more than an interrupt pushes.
pub record IsCpu (s : Cpu) (a b : ℕ) (rest : List ℕ) : Type 0 where
  pub ds : s.ds < 2 ^ 16
  pub cs : s.cs < 2 ^ 16
  pub stack : s.stack ≡ a ∷ b ∷ rest

-- The state that is resumed: all but the three segments that take the value of `ds`.
abbrev pub same_segments : Cpu → Cpu
same_segments s = record s { es = s.ds; fs = s.ds; gs = s.ds }

-- The record that the C function gets for an interrupted state: its registers, where the upper half of
-- `eax` stands over `ds`, the vector and the error code, and the two words below the pushed ones.
abbrev pub handed : ℕ → ℕ → ℕ → ℕ → Cpu → Registers
handed n code useresp ss s = record {
  ds = s.eax / 2 ^ 16 * 2 ^ 16 + u16 s.ds;
  edi = s.edi;
  esi = s.esi;
  ebp = s.ebp;
  esp = u32 (s.stack_base + 2 ^ 32 - 4 * suc (suc (suc (suc (suc (length s.stack))))));
  ebx = s.ebx;
  edx = s.edx;
  ecx = s.ecx;
  eax = s.eax;
  int_no = n;
  err_code = code;
  eip = s.eip;
  cs = s.cs;
  eflags = s.eflags;
  useresp = useresp;
  ss = ss;
}

low_half : (a d : ℕ) → d < 2 ^ 16 → u16 (a / 2 ^ 16 * 2 ^ 16 + u16 d) ≡ d
low_half a d h = omega arith

module _ (handler : Registers → Kernel → Outcome) (left : Registers → Kernel → Clobbered) where
  -- The words in the order in which both kinds of stubs leave them.
  abbrev framed : ℕ → ℕ → Cpu → Cpu
  framed n code s = push n (push code (enter none s))

  abbrev Resumes : ℕ → ℕ → ℕ → ℕ → Kernel → Cpu → Type 0
  Resumes n code a b k s =
      common_stub handler left (framed n code s) k
      ≡ ended (handler (handed n code a b s) k) (some (record (same_segments s) { cs = u16 s.cs }))

  common_stub-words :
      (n code a b : ℕ) (rest : List ℕ) (s : Cpu) (k : Kernel)
      → s.ds < 2 ^ 16
      → Resumes n code a b k (record s { stack = a ∷ b ∷ rest })
  unfolding common_stub save frame restore
  common_stub-words n code a b rest s k hd =
      ap
        (λ d.
          ended (handler (handed n code a b (record s { stack = a ∷ b ∷ rest })) k) (
            some
              (record s { ds = d; es = d; fs = d; gs = d; cs = u16 s.cs; stack = a ∷ b ∷ rest })))
        (low_half s.eax s.ds hd)

  -- The stack may be given by an equation.
  common_stub-framed :
      (n code a b : ℕ) (rest : List ℕ) (s : Cpu) (k : Kernel)
      → s.ds < 2 ^ 16
      → s.stack ≡ a ∷ b ∷ rest
      → Resumes n code a b k s
  common_stub-framed n code a b rest s k hd e =
      subst (λ w. Resumes n code a b k (record s { stack = w })) (sym e)
        (common_stub-words n code a b rest s k hd)

  pub common_stub-code :
      (n code a b : ℕ) (rest : List ℕ) (s : Cpu) (k : Kernel)
      → IsCpu s a b rest
      → common_stub handler left (framed n code s) k
        ≡ ended (handler (handed n code a b s) k) (some (same_segments s))
  common_stub-code n code a b rest s k ok =
      common_stub-framed n code a b rest s k ok.ds ok.stack
      ∙ ap
          (λ c.
            ended (handler (handed n code a b s) k) (some (record (same_segments s) { cs = c })))
          (mod-eq_of_lt ok.cs)

  pub isr_resumes :
      (n code a b : ℕ) (rest : List ℕ) (m : Macro) (s : Cpu) (k : Kernel)
      → IsCpu s a b rest
      → isr_macro n ≡ some m
      → two_codes n ≡ false
      → common_stub handler left (isr m n (enter (error_code n code) s)) k
        ≡ ended
            (handler (handed n (if has_error_code n then code else 0) a b s) k)
            (some (same_segments s))
  unfolding isr common_stub
  isr_resumes n code a b rest isr_noerrcode s k ok e other =
      rw (macro_code n isr_noerrcode e other) (common_stub-code n 0 a b rest s k ok)
  isr_resumes n code a b rest isr_errcode s k ok e other =
      rw (macro_code n isr_errcode e other) (common_stub-code n code a b rest s k ok)

  misaligned :
      (n : ℕ) → two_codes n ≡ true → (has_error_code n ≡ true) × (isr_macro n ≡ some isr_noerrcode)
  unfolding has_error_code isr_macro
  misaligned n e = ground (arith, e)

  -- Vectors 17, 21, 29 and 30 have an error code, and their stubs, by ISR_NOERRCODE, push another
  -- one: from a state with selectors of 16 bits and two words on the stack, the C function finds each
  -- word of the processor one place further on, and when it returns, the error code is resumed as
  -- the address and the low half of the address as the code selector.
  pub isr_misaligned :
      (n code a b : ℕ) (rest : List ℕ) (s : Cpu) (k : Kernel)
      → IsCpu s a b rest
      → two_codes n ≡ true
      → (has_error_code n ≡ true)
        × (isr_macro n ≡ some isr_noerrcode)
        × (let shifted = record s {
          eip = code;
          cs = s.eip;
          eflags = s.cs;
          stack = s.eflags ∷ s.stack;
        } in
            common_stub handler left (isr isr_noerrcode n (enter (error_code n code) s)) k
            ≡ ended
                (handler (handed n 0 s.eflags a shifted) k)
                (some (record (same_segments shifted) { cs = u16 s.eip })))
  unfolding isr common_stub
  isr_misaligned n code a b rest s k ok e = (
    (misaligned n e).0,
    (misaligned n e).1,
    rw (misaligned n e).0 (
        common_stub-framed n 0 s.eflags a (b ∷ rest)
          (record s { eip = code; cs = s.eip; eflags = s.cs; stack = s.eflags ∷ s.stack }) k ok.ds
          (ap (λ w. s.eflags ∷ w) ok.stack)),
  )
