-- ===== src/MyFs/Tree/Filed.antt =====
-- course_design/myfs_kernel.c: `myfs_creat_file` on a free name, where there is memory.
use Prim.Native.Nat.{bit_and, bit_or}
use Prim.Native.String.{String}
use grade15_1linux.Common.{
  ℕ, ◌%◌, ◌^◌, ◌≡◌, ◌∙◌, ap, true, false, Option, none, some, arith, ◌==◌, pos,
}
use grade15_1linux.MyFs.{OpsTable, World, Vfs, MountPtr, update, simple_dir_operations, found, null}
use grade15_1linux.MyFs.Nodes.{s_ifmt, s_ifreg, s_ifdir, set_inode, myfs_mkdir, myfs_creat}
use grade15_1linux.MyFs.Nodes.Laws.{VfsLaws}
use grade15_1linux.MyFs.Nodes.Create.Keeps.{myfs_mkdir_keeps, myfs_creat_keeps}
use grade15_1linux.MyFs.Tree.{
  final_error, attach_fops, attach, default_parent, d_inode, make, myfs_creat_by_name,
  myfs_creat_file,
}
use grade15_1linux.MyFs.Tree.ByName.{bind_some, d_inode-some}
use grade15_1linux.MyFs.Tree.Dcache.{DcacheLaws, HasMemory}
use grade15_1linux.MyFs.Tree.Added.{Added, Added-after, Added-before, unlock-Quiet, lookup-Looked}
use grade15_1linux.MyFs.Tree.Creation.{mkdir-Added, creat-Added}

-- The operations that `myfs_creat_file` leaves.
abbrev pub given : Option OpsTable → OpsTable → OpsTable
given none fop = fop
given (some t) fop = t

module _ {K : Type 0} (v : Vfs K) (laws : VfsLaws v) (cache : DcacheLaws v) where
  open cache use {used, child}

  attach-Added :
      {d i n mode : ℕ} {fop : OpsTable} {w w' : World K} (fops : Option OpsTable)
      → Added v laws cache d i n mode fop w w'
      → Added v laws cache d i n mode
          (given fops fop)
          w
          (set_inode i (attach_fops fops (w'.inodes i)) w')
  attach-Added {i} none s = record {
    entries = s.entries;
    counted = s.counted;
    holds = s.holds;
    others = λ j ne. ground (arith, s.others j ne);
    taken = s.taken;
    fresh = s.fresh;
    node = ground (arith, s.node);
  }
  attach-Added {i} (some t) s = record {
    entries = s.entries;
    counted = s.counted;
    holds = s.holds;
    others = λ j ne. ground (arith, s.others j ne);
    taken = s.taken;
    fresh = s.fresh;
    node = ground (arith, s.node);
  }

  attach-found :
      (d i : ℕ) (fops : Option OpsTable) (w : World K)
      → (w.dentries d).d_inode ≡ some i
      → attach (found d) none fops w ≡ some (some d, set_inode i (attach_fops fops (w.inodes i)) w)
  unfolding attach
  attach-found d i fops w e = rw (e, attach)

  -- What a call of `myfs_creat_file` with a name in the directory `p` leaves.
  pub record Filed (name : String) (mode' : ℕ) (fop : OpsTable) (p : ℕ) (w : World K)
      (r : Option (Option ℕ × World K)) : Type 0 where
    pub inode : ℕ
    pub after : World K
    pub result : r ≡ some (some (child p name), after)
    pub added : Added v laws cache (child p name) inode 2 mode' fop w after
    pub locks : (j : ℕ) → after.locked j ≡ w.locked j

  module _ (name : String) (mode p dir : ℕ) (m : MountPtr) (parent : Option ℕ) (w : World K)
      (in_p : default_parent m parent w ≡ some (some p, w)) (e : (w.dentries p).d_inode ≡ some dir)
      (unlocked : w.locked dir ≡ false) where
    looked_up : World K
    looked_up = (v.lookup_one_len name p (v.inode_lock dir w)).1

    -- The calls of `myfs_creat_by_name` around `make`.
    by_name :
        (w3 : World K)
        → make v (found (child p name)) mode p looked_up ≡ some (pos 0, w3)
        → (w3.dentries p).d_inode ≡ some dir
        → myfs_creat_by_name v name mode m parent null w
          ≡ some (record { error = pos 0; slot = found (child p name) }, v.inode_unlock dir w3)
    unfolding myfs_creat_by_name looked_up
    by_name w3 made kept =
        let looked = v.lookup_one_len name p (v.inode_lock dir w) in
        let here = cache.lookup_found name p (v.inode_lock dir w) in
        let made' : make v looked.0 mode p looked.1 ≡ some (pos 0, w3) = rw here made in
        bind_some (default_parent m parent) _ w in_p
        ∙ bind_some (d_inode p) _ w (d_inode-some p dir w e)
        ∙ bind_some (make v looked.0 mode p) _ looked.1 made'
        ∙ bind_some (d_inode p) _ w3 (d_inode-some p dir w3 kept)
        ∙ ap
            (λ slot.
              some
                (record { error = final_error slot (pos 0); slot = slot }, v.inode_unlock dir w3))
            here

    filed :
        (w3 : World K) (i mode' : ℕ) (fop : OpsTable) (fops : Option OpsTable)
        → make v (found (child p name)) mode p looked_up ≡ some (pos 0, w3)
        → (w3.dentries p).d_inode ≡ some dir
        → w3.locked ≡ looked_up.locked
        → Added v laws cache (child p name) i 1 mode' fop looked_up w3
        → Filed name mode' (given fops fop) p w (myfs_creat_file v name mode m parent none fops w)
    unfolding myfs_creat_file looked_up
    filed w3 i mode' fop fops made kept locks s =
        let d = child p name in
        let w4 = v.inode_unlock dir w3 in
        let before = lookup-Looked v laws cache name p dir w in
        let all =
          Added-before v laws cache (Added-after v laws cache before s)
            (unlock-Quiet v laws cache dir w3) in
        record {
          inode = i;
          after = set_inode i (attach_fops fops (w4.inodes i)) w4;
          result =
              bind_some (myfs_creat_by_name v name mode m parent null) _ w (by_name w3 made kept)
              ∙ attach-found d i fops w4 (all.entries d ∙ ground arith);
          added = attach-Added fops all;
          locks = λ j.
              ap (λ t. t j) (laws.unlock_locked dir w3)
              ∙ ap (λ t. update t dir false j)
                  (locks ∙ laws.lookup_locked name p (v.inode_lock dir w) ∙ laws.lock_locked dir w)
              ∙ ground arith;
        }

    looked_up_inode : (a : ℕ) → (looked_up.dentries a).d_inode ≡ (w.dentries a).d_inode
    unfolding looked_up
    looked_up_inode = (lookup-Looked v laws cache name p dir w).same_inode

    module _ (memory : HasMemory v) (free : (w.dentries (child p name)).d_inode ≡ none) where
      new : (i : ℕ) × ((v.new_inode (looked_up.inodes dir).i_sb looked_up).0 ≡ some i)
      new = memory (looked_up.inodes dir).i_sb looked_up

      free' : (looked_up.dentries (child p name)).d_inode ≡ none
      free' = looked_up_inode (child p name) ∙ free

      e' : (looked_up.dentries p).d_inode ≡ some dir
      e' = looked_up_inode p ∙ e

      -- A mode with the type of a directory makes a directory.
      pub dir-Filed :
          (fops : Option OpsTable)
          → (bit_and mode s_ifmt == s_ifdir) ≡ true
          → bit_and (bit_or mode s_ifdir) s_ifmt ≡ s_ifdir
          → Filed name
              (bit_or mode s_ifdir % 2 ^ 16)
              (given fops simple_dir_operations)
              p
              w
              (myfs_creat_file v name mode m parent none fops w)
      unfolding make
      dir-Filed fops test is_dir =
          let d = child p name in
          let made = mkdir-Added v laws cache dir d mode new.0 looked_up free' new.1 is_dir in
          let kept = myfs_mkdir_keeps v laws dir d mode p dir looked_up e' in
          filed (myfs_mkdir v dir d mode looked_up).1 new.0 (bit_or mode s_ifdir % 2 ^ 16)
            simple_dir_operations fops
            (bind_some (d_inode p) _ looked_up (d_inode-some p dir looked_up e')
              ∙ rw test (ap (λ res. some (res, (myfs_mkdir v dir d mode looked_up).1)) made.0))
            kept.0 kept.1 made.1

      -- Any other mode makes a regular file, with the operations that are given.
      pub file-Filed :
          (fops : OpsTable)
          → (bit_and mode s_ifmt == s_ifdir) ≡ false
          → bit_and (bit_or mode s_ifreg) s_ifmt ≡ s_ifreg
          → Filed name
              (bit_or mode s_ifreg % 2 ^ 16)
              fops
              p
              w
              (myfs_creat_file v name mode m parent none (some fops) w)
      unfolding make
      file-Filed fops test is_reg =
          let d = child p name in
          let (fop, res, made) =
            creat-Added v laws cache dir d mode new.0 looked_up free' new.1 is_reg in
          let kept = myfs_creat_keeps v laws dir d mode p dir looked_up e' in
          filed (myfs_creat v dir d mode looked_up).1 new.0 (bit_or mode s_ifreg % 2 ^ 16) fop
            (some fops)
            (bind_some (d_inode p) _ looked_up (d_inode-some p dir looked_up e')
              ∙ rw test (ap (λ res. some (res, (myfs_creat v dir d mode looked_up).1)) res))
            kept.0 kept.1 made
