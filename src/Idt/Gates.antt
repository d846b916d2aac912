-- ===== src/Idt/Gates.antt =====
-- Where each vector leads.
use brunix.Prelude.{
  same, same_sound, ℕ, ◌+◌, ◌-◌, ◌*◌, ◌/◌, ◌%◌, ◌^◌, ◌<◌, ◌≡◌, refl, ap, ◌∙◌, true, false, Bool,
  ◌||◌, bit_and_mask, true_below, true_below_sound, ltb, ◌==◌, if◌then◌else◌, arith, List, [], ◌∷◌,
  All,
}
use brunix.Idt.{
  Gate, Idt, IdtPtr, init_idt, gate, idt_set_gate, set_gates, isr_vectors, irq_vectors, isr_install,
  irq_gates,
}

-- The address that the processor jumps to.
abbrev pub offset : Gate → ℕ
offset g = g.base_hi * 2 ^ 16 + g.base_lo

-- An address of 32 bits is read back from the two halves.
pub gate-offset : (base sel flags : ℕ) → base < 2 ^ 32 → offset (gate base sel flags) ≡ base
unfolding gate
gate-offset base sel flags h = ground (arith, bit_and_mask 16 base, bit_and_mask 16 (base / 2 ^ 16))

abbrev pub member : List ℕ → ℕ → Bool
member [] v = false
member (n ∷ ns) v = v == n || member ns v

entry-set_gates :
    (stub : ℕ → ℕ) (ns : List ℕ) (t : Idt) (v : ℕ)
    → All (λ n. n < 256) ns
    → (set_gates stub ns t).entry v ≡ (if member ns v then gate (stub v) 0x08 0x8e else t.entry v)
unfolding set_gates idt_set_gate
entry-set_gates stub [] t v h = refl
entry-set_gates stub (n ∷ ns) t v h =
    entry-set_gates stub ns (idt_set_gate n (stub n) 0x08 0x8e t) v h.1 ∙ ground (arith, h.0)

-- The vectors that have a stub: the exceptions, the sixteen IRQs and the system call.
abbrev pub has_stub : ℕ → Bool
has_stub v = ltb v 48 || v == 0x80

stub_table :
    true_below 256 (λ v. same (member irq_vectors v || member isr_vectors v) (has_stub v)) ≡ true
unfolding true_below
stub_table = refl

-- What `irq_init` does to the table: `init_idt`, `isr_install`, and the gates of `irq_install`.
abbrev pub install : ℕ → (ℕ → ℕ) → Idt → Idt
install address stub t = irq_gates stub (isr_install stub (init_idt address t))

pub entry-install :
    (address : ℕ) (stub : ℕ → ℕ) (t : Idt) (v : ℕ)
    → v < 256
    → (install address stub t).entry v ≡ (if has_stub v then gate (stub v) 0x08 0x8e else t.entry v)
unfolding irq_gates isr_install init_idt
entry-install address stub t v h = ground (
  arith,
  entry-set_gates stub isr_vectors (init_idt address t) v (omega arith),
  entry-set_gates stub irq_vectors (isr_install stub (init_idt address t)) v (omega arith),
  same_sound (member irq_vectors v || member isr_vectors v) (has_stub v)
      (true_below_sound 256 _ v stub_table h),
)

idtr-set_gates : (stub : ℕ → ℕ) (ns : List ℕ) (t : Idt) → (set_gates stub ns t).idtr ≡ t.idtr
unfolding set_gates idt_set_gate
idtr-set_gates stub [] t = refl
idtr-set_gates stub (n ∷ ns) t = idtr-set_gates stub ns (idt_set_gate n (stub n) 0x08 0x8e t)

idtr-install :
    (address : ℕ) (stub : ℕ → ℕ) (t : Idt)
    → (install address stub t).idtr ≡ record { limit = 8 * 256 - 1; base = address }
unfolding irq_gates isr_install init_idt
idtr-install address stub t =
    idtr-set_gates stub irq_vectors _ ∙ idtr-set_gates stub isr_vectors (init_idt address t)

-- An interrupt gate of ring 0 into the kernel's code segment, at an address.
pub record LeadsTo (g : Gate) (address : ℕ) : Type 0 where
  pub target : offset g ≡ address
  pub segment : g.sel ≡ 0x08
  pub present : g.p_dpl_type / 128 ≡ 1
  pub privilege : g.p_dpl_type / 32 % 4 ≡ 0
  pub interrupt : g.p_dpl_type % 32 ≡ 14
  pub zero_byte : g.always0 ≡ 0

leads_to : (base : ℕ) → base < 2 ^ 32 → LeadsTo (gate base 0x08 0x8e) base
leads_to base h = record {
  target = gate-offset base 0x08 0x8e h;
  segment = unfold gate in refl;
  present = unfold gate in refl;
  privilege = unfold gate in refl;
  interrupt = unfold gate in refl;
  zero_byte = unfold gate in refl;
}

-- After `init_idt`, `isr_install` and the gates of `irq_install`, each vector of an exception, an IRQ or
-- the system call leads to its own stub, at an address of 32 bits, and the processor's register is
-- on the whole table.
pub install_leads :
    (address : ℕ) (stub : ℕ → ℕ) (t : Idt) (v : ℕ)
    → v < 256
    → has_stub v ≡ true
    → stub v < 2 ^ 32
    → let t' = install address stub t in
      LeadsTo (t'.entry v) (stub v) × (t'.idtr.base ≡ address) × (t'.idtr.limit + 1 ≡ 8 * 256)
install_leads address stub t v h e fits = (
  rw (entry-install address stub t v h, e) (leads_to (stub v) fits),
  ap (λ (p : IdtPtr). p.base) (idtr-install address stub t),
  ap (λ (p : IdtPtr). p.limit + 1) (idtr-install address stub t),
)

-- `init_idt`, `isr_install` and the gates of `irq_install` leave the entry of every other vector as it
-- was.
pub install_keeps :
    (address : ℕ) (stub : ℕ → ℕ) (t : Idt) (v : ℕ)
    → v < 256
    → has_stub v ≡ false
    → (install address stub t).entry v ≡ t.entry v
install_keeps address stub t v h e = rw (entry-install address stub t v h, e)
