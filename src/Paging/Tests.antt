-- ===== src/Paging/Tests.antt =====
-- The page tables, the bitmap and the page fault handler at concrete inputs.
use brunix.Prelude.{◌≡◌, arith, none}
use brunix.Vga.{Console}
use brunix.Printk.{color_red}
use brunix.Kernel.{halted, fault}
use brunix.Kernel.Samples.{started, stacked, address}
use brunix.Paging.{init_bitmap, paging_init, page_fault}
use brunix.Paging.Samples.{zeroed}
use brunix.Paging.Bitmap.{paging_init_overflows}
use brunix.Paging.Shown.{page_fault_shows}
use brunix.Paging.Messages.{context_message, fault_log}
use brunix.Vga.Terminal.{Shows}
use brunix.Vga.Puts.{empty_terminal}
use brunix.Vga.Number.{word_text}
use brunix.Itoa.Numeral.{numeral, low_digits, digit}
use brunix.Log.{type_log}
use brunix.Log.Samples.{started-Plain}
use brunix.Prelude.{◌++◌, codes, refl}

-- 128 MB of memory.
paging_init_overflows_example :
    (init_bitmap 0x8000000 ≡ none)
    × ((paging_init address 0x107000 0x108000 0x8000000 zeroed started).1 ≡ fault)
paging_init_overflows_example =
    paging_init_overflows address 0x107000 0x108000 0x8000000 zeroed started (omega arith)

-- A write to 0x400000, which is not present, by the kernel.
page_fault_shows_example :
    (c : Console) × (page_fault 0x400000 (stacked 14 2) started
      ≡ halted (record started { con = c }))
    × Shows c (type_log (fault_log 0x400000 (stacked 14 2)) empty_terminal)
    × (c.fore_colour ≡ color_red)
page_fault_shows_example =
    page_fault_shows 0x400000 (stacked 14 2) started empty_terminal started-Plain

fault_text :
    (context_message 0x400000 2).text
    ≡ codes "[paging]: Page fault (PF) occurred at 0x400000. PF context: "
      ++ codes "No page present - Writing -  -  - \n"
unfolding word_text numeral low_digits digit
fault_text = refl
