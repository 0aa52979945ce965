-- ===== src/BlockDevice/Disk/Read.antt =====
-- exp4/exp_4_2.c: when `device_read` reads the sectors that it is asked for.
use grade15_1linux.Common.{
  ℕ, ◌+◌, ◌*◌, ◌%◌, ◌^◌, ◌≤◌, ◌<◌, ◌≡◌, true, false, ◌&&◌, ◌||◌, none, some, arith, Bytes, length,
  slice, splice, ltb, leb, ◌==◌, pos,
}
use grade15_1linux.BlockDevice.{disk_size}
use grade15_1linux.BlockDevice.Disk.{read_offset, read_length, device_read}

module _ (disk page : Bytes) (sector nsectors : ℕ) where
  -- Sectors inside the disk, into a page with room for them: the page begins with exactly their
  -- bytes, and the value is their number.
  pub device_read_inside :
      length disk ≡ disk_size
      → (sector + nsectors) * 512 ≤ disk_size
      → nsectors * 512 ≤ length page
      → device_read disk sector page nsectors
        ≡ some (pos (nsectors * 512), splice 0 (slice (sector * 512) (nsectors * 512) disk) page)
  unfolding device_read
  device_read_inside whole inside room =
      let off : read_offset sector ≡ sector * 512 = omega arith in
      let count : read_length nsectors ≡ nsectors * 512 = omega arith in
      let fits : ltb disk_size ((sector * 512 + nsectors * 512) % 2 ^ 64) ≡ false = ground arith in
      let access : (nsectors * 512 == 0
            || (leb (sector * 512 + nsectors * 512) (length disk)
                && leb (nsectors * 512) (length page)))
          ≡ true =
        ground arith in
      rw (off, count, fits, access)

  -- The last sectors below 2^55: their offset and length add up to a small number modulo 2^64, which
  -- passes the test, and the copy is made from an address outside the disk.
  pub device_read_wraps :
      length disk ≡ disk_size
      → sector < 2 ^ 55
      → 2 ^ 55 ≤ sector + nsectors
      → sector + nsectors ≤ 2 ^ 55 + 32768
      → nsectors < 2 ^ 23
      → device_read disk sector page nsectors ≡ none
  unfolding device_read
  device_read_wraps whole below past near short =
      let off : read_offset sector ≡ sector * 512 = omega arith in
      let count : read_length nsectors ≡ nsectors * 512 = omega arith in
      let under : ltb disk_size ((sector * 512 + nsectors * 512) % 2 ^ 64) ≡ false = ground arith in
      let outside : (nsectors * 512 == 0
            || (leb (sector * 512 + nsectors * 512) (length disk)
                && leb (nsectors * 512) (length page)))
          ≡ false =
        ground arith in
      rw (off, count, under, outside)
