-- ===== src/Idt.antt =====
-- arch/x86/kernel/idt.c, arch/x86/include/asm/idt.h, `__idt_flush` of
-- arch/x86/kernel/descriptor_tables.asm, and the gates that `isr_install` of isr.c and `irq_install`
-- of irq.c set. The table has an entry for each value of a `uint8_t`: it is a function.
pub mod Gates
mod Tests
use brunix.Prelude.{
  ℕ, zero, suc, ◌+◌, ◌-◌, ◌*◌, ◌/◌, ◌%◌, ◌^◌, bit_and, u8, u16, ◌>>>◌, ◌==◌, if◌then◌else◌, List,
  [], ◌∷◌,
}

-- `idt_entry_t`
pub record Gate : Type 0 where
  pub base_lo : ℕ
  pub sel : ℕ
  pub always0 : ℕ
  pub p_dpl_type : ℕ
  pub base_hi : ℕ

-- `idt_ptr_t`
pub record IdtPtr : Type 0 where
  pub limit : ℕ
  pub base : ℕ

-- The static table and pointer, and the processor's register.
pub record Idt : Type 0 where
  pub entry : ℕ → Gate
  pub idt_ptr : IdtPtr
  pub idtr : IdtPtr

-- An entry as it is initialised.
abbrev pub no_gate : Gate
no_gate = record { base_lo = 0; sel = 0; always0 = 0; p_dpl_type = 0; base_hi = 0 }

-- `init_idt` with `__idt_flush`; `address` is that of the array, and an entry has 8 bytes.
unfoldable pub init_idt : ℕ → Idt → Idt
init_idt address t =
    let p : IdtPtr = record { limit = u16 (8 * 256 - 1); base = address } in
    record t { idt_ptr = p; idtr = p }

unfoldable pub gate : ℕ → ℕ → ℕ → Gate
gate base sel flags = record {
  base_lo = u16 (bit_and base 0xffff);
  base_hi = u16 (bit_and (base >>> 16) 0xffff);
  sel = sel;
  always0 = 0;
  p_dpl_type = flags;
}

unfoldable pub idt_set_gate : ℕ → ℕ → ℕ → ℕ → Idt → Idt
idt_set_gate num base sel flags t = record t {
  entry = λ j. if j == u8 num then gate base sel flags else t.entry j;
}

-- One call of `idt_set_gate` for each vector of a list, with the stubs' addresses.
unfoldable pub set_gates : (ℕ → ℕ) → List ℕ → Idt → Idt
set_gates stub [] t = t
set_gates stub (n ∷ ns) t = set_gates stub ns (idt_set_gate n (stub n) 0x08 0x8e t)

-- The vectors in the order of `isr_install`: the exceptions, then the system call.
abbrev pub isr_vectors : List ℕ
isr_vectors =
    0 ∷ 1 ∷ 2 ∷ 3 ∷ 4 ∷ 5 ∷ 6 ∷ 7 ∷ 8 ∷ 9 ∷ 10 ∷ 11 ∷ 12 ∷ 13 ∷ 14 ∷ 15 ∷ 16 ∷ 17 ∷ 18 ∷ 19 ∷ 20
    ∷ 21 ∷ 22 ∷ 23 ∷ 24 ∷ 25 ∷ 26 ∷ 27 ∷ 28 ∷ 29 ∷ 30 ∷ 31 ∷ 0x80 ∷ []

-- IRQ0 to IRQ15, in the order of `irq_install`.
abbrev pub irq_vectors : List ℕ
irq_vectors = 32 ∷ 33 ∷ 34 ∷ 35 ∷ 36 ∷ 37 ∷ 38 ∷ 39 ∷ 40 ∷ 41 ∷ 42 ∷ 43 ∷ 44 ∷ 45 ∷ 46 ∷ 47 ∷ []

-- `stub n` is the address of the assembly stub of vector `n`: isr0 to isr31, isr0x80, irq0 to irq15.
unfoldable pub isr_install : (ℕ → ℕ) → Idt → Idt
isr_install stub t = set_gates stub isr_vectors t

unfoldable pub irq_gates : (ℕ → ℕ) → Idt → Idt
irq_gates stub t = set_gates stub irq_vectors t
