-- ===== src/MyFs/Nodes/Mode.antt =====
-- course_design/myfs_kernel.c: the file type in a mode of 16 bits, once S_IFDIR or S_IFREG is set.
use Prim.Native.Nat.{bit_and, bit_or}
use grade15_1linux.Common.{
  ℕ, ◌^◌, ◌≡◌, ◌<◌, refl, Bool, true, ◌||◌, not, ◌==◌, ◌↔◌, ◌⊎◌, if◌then◌else◌, arith, table,
  table_entry,
}
use grade15_1linux.MyFs.Nodes.{s_ifmt, s_ifreg, s_ifdir}

abbrev file_type : ℕ → ℕ
file_type mode = bit_and mode s_ifmt

-- For every mode of 16 bits, the type with S_IFDIR set is a directory's exactly if the mode had no
-- type or that one; and so for S_IFREG and the type of a regular file.
abbrev row : ℕ → ℕ → Bool
row bits mode =
    if file_type mode == 0 || file_type mode == bits
    then file_type (bit_or mode bits) == bits
    else not (file_type (bit_or mode bits) == bits)

dir_table : table (row s_ifdir) (2 ^ 16) ≡ true
unfolding table
dir_table = refl

reg_table : table (row s_ifreg) (2 ^ 16) ≡ true
unfolding table
reg_table = refl

row_iff :
    (bits mode : ℕ)
    → row bits mode ≡ true
    → (bit_and (bit_or mode bits) s_ifmt ≡ bits)
      ↔ ((bit_and mode s_ifmt ≡ 0) ⊎ (bit_and mode s_ifmt ≡ bits))
row_iff bits mode h = (λ e. ground arith, λ e. ground arith)

pub dir_type_iff :
    (mode : ℕ)
    → mode < 2 ^ 16
    → (bit_and (bit_or mode s_ifdir) s_ifmt ≡ s_ifdir)
      ↔ ((bit_and mode s_ifmt ≡ 0) ⊎ (bit_and mode s_ifmt ≡ s_ifdir))
dir_type_iff mode h = row_iff s_ifdir mode (table_entry (row s_ifdir) (2 ^ 16) mode h dir_table)

pub reg_type_iff :
    (mode : ℕ)
    → mode < 2 ^ 16
    → (bit_and (bit_or mode s_ifreg) s_ifmt ≡ s_ifreg)
      ↔ ((bit_and mode s_ifmt ≡ 0) ⊎ (bit_and mode s_ifmt ≡ s_ifreg))
reg_type_iff mode h = row_iff s_ifreg mode (table_entry (row s_ifreg) (2 ^ 16) mode h reg_table)
