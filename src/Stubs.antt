-- ===== src/Stubs.antt =====
-- arch/x86/kernel/interrupt.asm: the stubs that the gates of the interrupt table lead to.
-- The stack is its words from the top on; what lies below the modelled words is not reached.
pub mod Frames
pub mod Irqs
mod Tests
use brunix.Prelude.{
  ℕ, ◌+◌, ◌-◌, ◌*◌, ◌/◌, ◌^◌, bit_and, bit_or, u16, u32, ltb, leb, ◌==◌, ◌&&◌, ◌||◌, if◌then◌else◌,
  Option, some, none, ◌>>=◌, List, [], ◌∷◌, length,
}
use brunix.Kernel.{Kernel, Registers, Outcome, running, halted, fault}

-- The registers of the processor, and the stack, which grows down from `stack_base`.
pub record Cpu : Type 0 where
  pub eax : ℕ
  pub ecx : ℕ
  pub edx : ℕ
  pub ebx : ℕ
  pub ebp : ℕ
  pub esi : ℕ
  pub edi : ℕ
  pub ds : ℕ
  pub es : ℕ
  pub fs : ℕ
  pub gs : ℕ
  pub cs : ℕ
  pub eip : ℕ
  pub eflags : ℕ
  pub stack_base : ℕ
  pub stack : List ℕ

abbrev pub esp : Cpu → ℕ
esp s = u32 (s.stack_base + 2 ^ 32 - 4 * length s.stack)

abbrev pub push : ℕ → Cpu → Cpu
push w s = record s { stack = w ∷ s.stack }

-- `cli` and `sti`: the flag of interrupts is bit 9.
abbrev pub cli : Cpu → Cpu
cli s = record s { eflags = bit_and s.eflags (2 ^ 32 - 1 - 2 ^ 9) }

abbrev pub sti : Cpu → Cpu
sti s = record s { eflags = bit_or s.eflags (2 ^ 9) }

-- The first operand `ax`: the upper half of `eax` stays.
abbrev pub mov_ax : ℕ → Cpu → Cpu
mov_ax w s = record s { eax = s.eax / 2 ^ 16 * 2 ^ 16 + u16 w }

-- The four data segments from a register's lower half.
abbrev pub mov_segments : ℕ → Cpu → Cpu
mov_segments w s = record s { ds = u16 w; es = u16 w; fs = u16 w; gs = u16 w }

abbrev pub pusha : Cpu → Cpu
pusha s = record s {
  stack = s.edi ∷ s.esi ∷ s.ebp ∷ esp s ∷ s.ebx ∷ s.edx ∷ s.ecx ∷ s.eax ∷ s.stack;
}

-- The macro that defines the stub of a vector.
pub data Macro : Type 0 where
  isr_noerrcode isr_errcode : Macro

unfoldable pub isr_macro : ℕ → Option Macro
isr_macro n =
    if n == 8 || leb 10 n && leb n 14
    then some isr_errcode
    else if ltb n 32 || n == 0x80
    then some isr_noerrcode
    else none

-- A stub up to its jump.
unfoldable pub isr : Macro → ℕ → Cpu → Cpu
isr isr_noerrcode n s = push n (push 0 (cli s))
isr isr_errcode n s = push n (cli s)

unfoldable pub irq : ℕ → Cpu → Cpu
irq i s = push (32 + i) (push 0 (cli s))

-- The common stubs up to their call.
unfoldable pub save : Cpu → Cpu
save s =
    let s = pusha s in
    let s = mov_ax s.ds s in let s = push s.eax s in let s = mov_ax 0x10 s in mov_segments s.eax s

-- The words on the stack as the parameter of the C function.
unfoldable pub frame : List ℕ → Option Registers
frame
      (ds ∷ edi ∷ esi ∷ ebp ∷ esp ∷ ebx ∷ edx ∷ ecx ∷ eax ∷ int_no ∷ err_code ∷ eip ∷ cs ∷ eflags
        ∷ useresp ∷ ss ∷ rest) =
    some (record {
      ds = ds;
      edi = edi;
      esi = esi;
      ebp = ebp;
      esp = esp;
      ebx = ebx;
      edx = edx;
      ecx = ecx;
      eax = eax;
      int_no = int_no;
      err_code = err_code;
      eip = eip;
      cs = cs;
      eflags = eflags;
      useresp = useresp;
      ss = ss;
    })
frame words = none

-- What the compiled C function leaves in the general registers and the flags.
pub record Clobbered : Type 0 where
  pub eax : ℕ
  pub ecx : ℕ
  pub edx : ℕ
  pub ebx : ℕ
  pub ebp : ℕ
  pub esi : ℕ
  pub edi : ℕ
  pub eflags : ℕ

abbrev pub clobber : Clobbered → Cpu → Cpu
clobber c s = record s {
  eax = c.eax;
  ecx = c.ecx;
  edx = c.edx;
  ebx = c.ebx;
  ebp = c.ebp;
  esi = c.esi;
  edi = c.edi;
  eflags = c.eflags;
}

abbrev pub pop_from : List ℕ → Cpu → Option (ℕ × Cpu)
pop_from [] s = none
pop_from (w ∷ stack) s = some (w, record s { stack = stack })

abbrev pub pop : Cpu → Option (ℕ × Cpu)
pop s = pop_from s.stack s

-- `popa` skips the word of `esp`.
abbrev pub popa_from : List ℕ → Cpu → Option Cpu
popa_from (edi ∷ esi ∷ ebp ∷ esp ∷ ebx ∷ edx ∷ ecx ∷ eax ∷ stack) s = some (record s {
  edi = edi;
  esi = esi;
  ebp = ebp;
  ebx = ebx;
  edx = edx;
  ecx = ecx;
  eax = eax;
  stack = stack;
})
popa_from words s = none

abbrev pub popa : Cpu → Option Cpu
popa s = popa_from s.stack s

-- `iret`, which pops three words where the privilege stays.
abbrev pub iret : Cpu → Option Cpu
iret s = pop s >>= λ (eip, s). pop s >>= λ (cs, s).
    pop s >>= λ (eflags, s). some (record s { eip = eip; cs = u16 cs; eflags = eflags })

-- The common stubs behind their call; `add esp, 8` drops two words.
unfoldable pub restore : Cpu → Option Cpu
restore s = pop s >>= λ (ebx, s). popa (mov_segments ebx (record s { ebx = ebx })) >>= λ s.
    pop s >>= λ (int_no, s). pop s >>= λ (err_code, s). iret (sti s)

-- A stub returns to what was interrupted, stops in its C function, or does what is not defined.
pub data Ended : Type 0 where
  resumed : Cpu → Kernel → Ended
  stopped : Kernel → Ended
  lost : Ended

unfoldable pub ended : Outcome → Option Cpu → Ended
ended (running k) (some s) = resumed s k
ended (running k) none = lost
ended (halted k) s = stopped k
ended fault s = lost

-- `isr_common_stub` and `irq_common_stub` around the C function that they call. The function gets the
-- words on the stack, and leaves them as they are; `left` is what it leaves in the registers.
unfoldable pub common_stub :
    (Registers → Kernel → Outcome) → (Registers → Kernel → Clobbered) → Cpu → Kernel → Ended
unfolding save frame restore ended
common_stub handler left s k =
    let s = save s in
    elim (frame s.stack) [
      | none ↦ lost
      | some regs ↦ ended (handler regs k) (restore (clobber (left regs k) s))
    ]
