-- ===== src/Control/Tests.antt =====
-- The end of `paging_init`, called from `kmain`, with the cache off and the processor in protected mode.
use brunix.Prelude.{◌/◌, ◌%◌, ◌^◌, ◌≡◌, refl, arith, ◌==◌, some, ◌>>=◌, [], ◌∷◌}
use brunix.Paging.{map_memory}
use brunix.Paging.Samples.{zeroed}
use brunix.Stubs.{Cpu}
use brunix.Control.{Machine, load_page_directory, enable_paging, called}
use brunix.Control.Turned.{paging_turned_on}

abbrev in_paging_init : Cpu
in_paging_init = record {
  eax = 14;
  ecx = 0;
  edx = 0x3f9;
  ebx = 0x10000;
  ebp = 0x8f00;
  esi = 0;
  edi = 0;
  ds = 0x10;
  es = 0x10;
  fs = 0x10;
  gs = 0x10;
  cs = 0x08;
  eip = 0x101200;
  eflags = 0x202;
  stack_base = 0x9000;
  stack = 0x107000 ∷ 7 ∷ [];
}

abbrev before : Machine
before = record { cpu = in_paging_init; cr0 = 0x60000011; cr3 = 0 }

paging_turned_on_example :
    (m' : Machine) × ((load_page_directory (called 0x101205 before) >>= λ m.
    enable_paging (called 0x10120d m))
      ≡ some m')
    × (m'.cpu ≡ record in_paging_init { eax = m'.cr0; eip = 0x10120d })
    × (m'.cr0 % 2 ^ 31 ≡ 0x60000011)
    × (m'.cr3 ≡ (map_memory 0x107000 0x108000 zeroed).cr3)
    × ((m'.cr0 / 2 ^ 31 == 1) ≡ (map_memory 0x107000 0x108000 zeroed).paging)
paging_turned_on_example =
    paging_turned_on 0x107000 0x108000 0x101205 0x10120d (7 ∷ []) zeroed before refl (omega arith)
      (omega arith) (omega arith)
