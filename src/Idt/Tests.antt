-- ===== src/Idt/Tests.antt =====
-- The table at the time of the boot.
use brunix.Prelude.{ℕ, ◌+◌, ◌*◌, ◌≡◌, refl, arith}
use brunix.Idt.{Idt, no_gate}
use brunix.Idt.Gates.{install, LeadsTo, install_leads}

abbrev static_idt : Idt
static_idt = record {
  entry = λ _. no_gate;
  idt_ptr = record { limit = 0; base = 0 };
  idtr = record { limit = 0; base = 0 };
}

-- Stubs of 16 bytes, one behind the other.
abbrev stub : ℕ → ℕ
stub v = 0x101000 + 16 * v

install_leads_example :
    let t' = install 0x106000 stub static_idt in
    LeadsTo (t'.entry 33) (stub 33) × (t'.idtr.base ≡ 0x106000) × (t'.idtr.limit + 1 ≡ 8 * 256)
install_leads_example = install_leads 0x106000 stub static_idt 33 (omega arith) refl (omega arith)
