-- ===== src/Paging/Samples.antt =====
-- The static tables before the kernel writes them.
use brunix.Prelude.{false}
use brunix.Paging.{Tables}

abbrev pub zeroed : Tables
zeroed = record {
  page_directory = λ _. record {
    present_flag = 0;
    read_write_flag = 0;
    user_supervisor_flag = 0;
    unused_flags = 0;
    page_table_base_address = 0;
  };
  first_page_table = λ _. record {
    present_flag = 0;
    read_write_flag = 0;
    user_supervisor_flag = 0;
    unused_flags = 0;
    physical_page_address = 0;
  };
  cr3 = 0;
  paging = false;
}
