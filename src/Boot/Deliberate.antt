-- ===== src/Boot/Deliberate.antt =====
-- kernel/main.c: the deliberate page fault behind `paging_init`.
pub mod Stops
pub mod Shown
use brunix.Prelude.{ℕ, Option, some, none, [], codes}
use brunix.Io.{Devices}
use brunix.Kernel.{Kernel, Registers, Outcome, running, halted, fault, print}
use brunix.Paging.{TableEntry, Tables}
use brunix.Paging.Identity.{translate}
use brunix.Dispatch.{isr_handler}
use brunix.Stubs.{
  Cpu, Clobbered, isr_errcode, isr, Ended, resumed, stopped, lost, ended, common_stub,
}
use brunix.Stubs.Frames.{enter}

module _ (devices : Devices) (left : Registers → Kernel → Clobbered)
    (table_at : ℕ → Option (ℕ → TableEntry)) (t : Tables) where
  -- `*ptr` in the kernel, by where the tables take the address: a value is read, or, where they map no
  -- page, exception 14 comes with the error code of a read.
  abbrev pub loaded : ℕ → Cpu → Kernel → Option ℕ → Ended
  loaded va s k (some pa) = resumed s k
  loaded va s k none =
      common_stub (isr_handler devices va) left (isr isr_errcode 14 (enter (some 0) s)) k

  unfoldable pub load : ℕ → Cpu → Kernel → Ended
  load va s k = loaded va s k (translate table_at t va)

  -- What `kmain` does when the read returns.
  abbrev pub la_la_la : Ended → Ended
  la_la_la (resumed s k) = ended (print (codes "LA LA LA\n") [] k) (some s)
  la_la_la (stopped k) = stopped k
  la_la_la lost = lost

  abbrev pub announced : Cpu → Outcome → Ended
  announced s (running k) = la_la_la (load 0x400000 s k)
  announced s (halted k) = stopped k
  announced s fault = lost

  unfoldable pub generate_page_fault : Cpu → Kernel → Ended
  generate_page_fault s k = announced s (print (codes "\nGenerating a page fault...") [] k)
