-- ===== src/MyFs/File/Access.antt =====
-- course_design/myfs_kernel.c: who may open a file.
use grade15_1linux.Common.{◌≡◌, ◌≢◌, ◌↔◌, ◌⊎◌, Option, some, arith, pos, eacces}
use grade15_1linux.MyFs.File.{MyfsFileInfo, OpenCalls, myfs_file_open}

-- Where there is memory, `open` refuses exactly the users other than root whom the kernel's check
-- would let in, and lets in root and everyone whom the check refuses.
pub myfs_file_open_inverted :
    (c : OpenCalls) (old : Option MyfsFileInfo) {info : MyfsFileInfo}
    → c.kmalloc ≡ some info
    → (((myfs_file_open c old).0 ≡ eacces) ↔ ((c.inode_permission ≡ pos 0) × (c.uid ≢ 0)))
      × (((myfs_file_open c old).0 ≡ pos 0) ↔ ((c.inode_permission ≢ pos 0) ⊎ (c.uid ≡ 0)))
unfolding myfs_file_open
myfs_file_open_inverted c old h =
    ((λ e. ground arith, λ e. ground arith), (λ e. ground arith, λ e. ground arith))
