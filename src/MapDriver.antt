-- ===== src/MapDriver.antt =====
-- exp2/exp2.4/map_driver.c: a character device whose memory a process maps. Mapping is `mmap` and the
-- page fault, Pages the loops over the pages of the memory in the module's entry and exit,
-- Users the programs exp2/exp2.4/maptest_read.c and exp2/exp2.4/maptest_write.c.
pub mod Mapping
pub mod Pages
pub mod Users
mod Examples
use grade15_1linux.Common.{ℕ, ◌*◌, ◌^◌}

-- Pages of 4 KB, as the source's comments say; PAGE_SHIFT is 12.
abbrev pub page_size : ℕ
page_size = 2 ^ 12

abbrev pub map_page_count : ℕ
map_page_count = 10

abbrev pub maplen : ℕ
maplen = page_size * map_page_count

abbrev pub map_dev_major : ℕ
map_dev_major = 260
