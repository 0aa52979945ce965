-- ===== src/BlockDevice/Disk/Write.antt =====
-- exp4/exp_4_2.c: when `device_write` writes the bytes that it is given, and that `device_read` gives
-- them back.
use grade15_1linux.Common.{
  ℕ, ◌+◌, ◌*◌, ◌^◌, ◌≤◌, ◌<◌, ◌≡◌, ◌∙◌, ap, true, false, ◌||◌, none, some, arith, Bytes, length,
  take, drop, slice, splice, ltb, leb, ◌==◌, ◌++◌, pos, length-take, length-drop, drop-drop,
  length-splice, slice-splice, sym,
}
use grade15_1linux.UserCopy.{UserCopy, CopyLaws}
use grade15_1linux.BlockDevice.{disk_size}
use grade15_1linux.BlockDevice.Disk.{device_read, device_write, Writing, free_space}
use grade15_1linux.BlockDevice.Disk.Read.{device_read_inside}

module _ (u : UserCopy) (buffer : Bytes) (count offset : ℕ) (disk : Bytes) where
  copied : Bytes × ℕ
  copied = u.copy_from_user (drop offset disk) buffer count

  -- What a whole copy leaves.
  copied_disk :
      CopyLaws u.copy_from_user
      → length disk ≡ disk_size
      → offset + count ≤ disk_size
      → count ≤ length buffer
      → copied.1 ≡ 0
      → take offset disk ++ copied.0 ≡ splice offset (take count buffer) disk
  unfolding copied
  copied_disk laws whole inside given ok =
      let room : count ≤ length (drop offset disk) = omega (arith, length-drop offset disk) in
      rw (laws.copied (drop offset disk) buffer count room given ok) (
        ap (λ rest. take offset disk ++ (take count buffer ++ rest))
          (drop-drop offset count (offset + length (take count buffer)) disk
            (omega (arith, length-take count buffer))))

  -- A write inside the disk whose copy is whole: the value is the count, the offset moves behind the
  -- bytes, and exactly they are replaced on the disk.
  pub device_write_inside :
      CopyLaws u.copy_from_user
      → length disk ≡ disk_size
      → offset + count ≤ disk_size
      → count ≤ length buffer
      → (u.copy_from_user (drop offset disk) buffer count).1 ≡ 0
      → device_write u buffer count offset disk
        ≡ some (record {
          code = pos count;
          offset = offset + count;
          disk = splice offset (take count buffer) disk;
        })
  unfolding device_write copied
  device_write_inside laws whole inside given ok =
      let fits : ltb (free_space offset) count ≡ false = ground arith in
      let access : (count == 0 || leb (offset + count) (length disk)) ≡ true = ground arith in
      rw (fits, access, ok, copied_disk laws whole inside given ok)

  -- Behind the end of the disk the free space wraps: no write there is refused, but its bytes go to
  -- an address outside the disk.
  pub device_write_wraps :
      length disk ≡ disk_size
      → disk_size < offset
      → offset < 2 ^ 63
      → 0 < count
      → count ≤ 2 ^ 63
      → device_write u buffer count offset disk ≡ none
  unfolding device_write
  device_write_wraps whole behind low some_bytes short =
      let passed : ltb (free_space offset) count ≡ false = ground arith in
      let outside : (count == 0 || leb (offset + count) (length disk)) ≡ false = ground arith in
      rw (passed, outside)

-- What is written over whole sectors inside the disk, by a copy that is whole, is what a later read
-- of these sectors puts at the start of the page.
pub device_read-device_write :
    (u : UserCopy) (buffer disk page : Bytes) (sector nsectors : ℕ)
    → CopyLaws u.copy_from_user
    → length disk ≡ disk_size
    → (sector + nsectors) * 512 ≤ disk_size
    → nsectors * 512 ≤ length buffer
    → nsectors * 512 ≤ length page
    → (u.copy_from_user (drop (sector * 512) disk) buffer (nsectors * 512)).1 ≡ 0
    → (w : Writing) × (device_write u buffer (nsectors * 512) (sector * 512) disk ≡ some w)
      × (device_read w.disk sector page nsectors
          ≡ some (pos (nsectors * 512), splice 0 (take (nsectors * 512) buffer) page))
device_read-device_write u buffer disk page sector nsectors laws whole inside given room ok = (
  record {
    code = pos count;
    offset = offset + count;
    disk = splice offset (take count buffer) disk;
  },
  device_write_inside u buffer count offset disk laws whole (omega arith) given ok,
  device_read_inside (splice offset (take count buffer) disk) page sector nsectors
        (length-splice offset (take count buffer) disk fits ∙ whole) inside room
      ∙ ap (λ b. some (pos count, splice 0 b page)) read_back,
)
  where
    count : ℕ
    count = nsectors * 512

    offset : ℕ
    offset = sector * 512

    taken : length (take count buffer) ≡ count
    taken = omega (arith, length-take count buffer)

    fits : offset + length (take count buffer) ≤ length disk
    fits = omega (arith, taken)

    read_back : slice offset count (splice offset (take count buffer) disk) ≡ take count buffer
    read_back =
        ap (λ n. slice offset n (splice offset (take count buffer) disk)) (sym taken)
        ∙ slice-splice offset (take count buffer) disk fits
