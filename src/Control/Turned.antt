-- ===== src/Control/Turned.antt =====
-- arch/x86/kernel/paging.asm and memory.c: the registers behind the two calls.
use brunix.Prelude.{
  bit_or_low, bit_or-set, Bool-cases, inl, inr, ltb, ℕ, suc, ◌+◌, ◌-◌, ◌*◌, ◌/◌, ◌%◌, ◌^◌, ◌<◌, ◌≡◌,
  refl, sym, ap, ◌∙◌, arith, ◌==◌, bit_or, u32, Option, some, ◌>>=◌, List, ◌∷◌, length, drop,
}
use brunix.Paging.{Tables, map_memory}
use brunix.Stubs.{Cpu, esp, pop}
use brunix.Control.{mov_ebp_esp, Machine, leave, load_page_directory, enable_paging, called}

-- The stack pointer has not moved since `mov ebp, esp`.
unmoved :
    (base n : ℕ)
    → base < 2 ^ 32
    → 4 * n < 2 ^ 32
    → n - u32 (base + 2 ^ 32 - u32 (base + 2 ^ 32 - 4 * n)) / 4 ≡ 0
unmoved base n hb hn = omega arith

-- What `leave` restores, with `ebp` the stack pointer.
leave_lem :
    (s : Cpu) (ebp eip : ℕ) (rest : List ℕ)
    → s.stack_base < 2 ^ 32
    → 4 * suc (suc (length rest)) < 2 ^ 32
    → leave (mov_ebp_esp (record s { stack = ebp ∷ eip ∷ rest }))
      ≡ some (record s { ebp = ebp; eip = eip; stack = rest })
unfolding leave
leave_lem s ebp eip rest base room =
    ap
      (λ n.
        pop (record s {
          ebp = esp (record s { stack = ebp ∷ eip ∷ rest });
          stack = drop n (ebp ∷ eip ∷ rest);
        })
        >>= λ (w, s). pop (record s { ebp = w }) >>= λ (w, s). some (record s { eip = w }))
      (unmoved s.stack_base (suc (suc (length rest))) base room)

-- `or eax, 0x80000000`
or_paging : (cr0 : ℕ) → cr0 < 2 ^ 32 → bit_or cr0 0x80000000 ≡ cr0 % 2 ^ 31 + 2 ^ 31
or_paging cr0 h = elim (Bool-cases (ltb cr0 (2 ^ 31))) [
  | inl e ↦ ground (arith, e, bit_or_low 31 cr0 1)
  | inr e ↦ ground (arith, e, bit_or-set 31 (cr0 - 2 ^ 31))
]

load_page_directory_lem :
    (s : Cpu) (cr0 cr3 eip directory : ℕ) (rest : List ℕ)
    → s.stack_base < 2 ^ 32
    → 4 * (length rest + 3) < 2 ^ 32
    → load_page_directory
        (record { cpu = record s { stack = eip ∷ directory ∷ rest }; cr0 = cr0; cr3 = cr3 })
      ≡ some (record {
        cpu = record s { eax = directory; eip = eip; stack = directory ∷ rest };
        cr0 = cr0;
        cr3 = directory;
      })
unfolding load_page_directory
load_page_directory_lem s cr0 cr3 eip directory rest base room =
    ap (λ (o : Option Cpu). o >>= λ s. some (record { cpu = s; cr0 = cr0; cr3 = directory }))
      (leave_lem (record s { eax = directory }) s.ebp eip (directory ∷ rest) base (omega arith))

enable_paging_lem :
    (s : Cpu) (cr0 cr3 eip : ℕ) (rest : List ℕ)
    → s.stack_base < 2 ^ 32
    → 4 * (length rest + 2) < 2 ^ 32
    → cr0 < 2 ^ 32
    → enable_paging (record { cpu = record s { stack = eip ∷ rest }; cr0 = cr0; cr3 = cr3 })
      ≡ some (record {
        cpu = record s { eax = cr0 % 2 ^ 31 + 2 ^ 31; eip = eip; stack = rest };
        cr0 = cr0 % 2 ^ 31 + 2 ^ 31;
        cr3 = cr3;
      })
unfolding enable_paging
enable_paging_lem s cr0 cr3 eip rest base room small =
    ap
      (λ (w : ℕ). leave (mov_ebp_esp (record s { eax = w; stack = s.ebp ∷ eip ∷ rest })) >>= λ s.
        some (record { cpu = s; cr0 = w; cr3 = cr3 }))
      (or_paging cr0 small)
    ∙ ap
        (λ (o : Option Cpu).
          o >>= λ s. some (record { cpu = s; cr0 = cr0 % 2 ^ 31 + 2 ^ 31; cr3 = cr3 }))
        (leave_lem (record s { eax = cr0 % 2 ^ 31 + 2 ^ 31 }) s.ebp eip rest base (omega arith))

-- With the directory's address on the stack and room for two words more: `__load_page_directory` and
-- behind it `__enable_paging`, each reached by a call, return to where they were called, keep
-- `ebp`, the stack and every register but `eax`, `cr0` and `cr3`, set the highest bit of `cr0` and
-- keep its others; and what the registers then say of the paging is what `map_memory` says.
pub paging_turned_on :
    (directory table first second : ℕ) (rest : List ℕ) (t : Tables) (m : Machine)
    → m.cpu.stack ≡ directory ∷ rest
    → m.cpu.stack_base < 2 ^ 32
    → 4 * (length rest + 3) < 2 ^ 32
    → m.cr0 < 2 ^ 32
    → (m' : Machine) × ((load_page_directory (called first m) >>= λ m.
          enable_paging (called second m))
        ≡ some m')
      × (m'.cpu ≡ record m.cpu { eax = m'.cr0; eip = second })
      × (m'.cr0 % 2 ^ 31 ≡ m.cr0 % 2 ^ 31)
      × (m'.cr3 ≡ (map_memory directory table t).cr3)
      × ((m'.cr0 / 2 ^ 31 == 1) ≡ (map_memory directory table t).paging)
unfolding load_page_directory enable_paging map_memory
paging_turned_on directory table first second rest t m e base room small =
    let high = m.cr0 % 2 ^ 31 + 2 ^ 31 in
    let s : Cpu = record m.cpu { eax = high; eip = second; stack = directory ∷ rest } in
    (
      record { cpu = s; cr0 = high; cr3 = directory },
      ap
            (λ st.
              load_page_directory (record m { cpu = record m.cpu { stack = first ∷ st } }) >>= λ m.
              enable_paging (called second m))
            e
          ∙ ap (λ o. o >>= λ m. enable_paging (called second m))
              (load_page_directory_lem m.cpu m.cr0 m.cr3 first directory rest base room)
          ∙ enable_paging_lem
              (record m.cpu { eax = directory; eip = first; stack = directory ∷ rest }) m.cr0
              directory second (directory ∷ rest) base (omega arith) small,
      ap (λ (st : List ℕ). record s { stack = st }) (sym e),
      omega arith,
      refl,
      ground arith,
    )
