-- ===== src/BlockDevice/Examples.antt =====
-- Instances of the theorems about exp4/exp_4_2.c.
use grade15_1linux.Common.{
  ℕ, ◌*◌, ◌≡◌, refl, none, some, arith, [], Bytes, length, replicate, take, drop, splice, pos,
  enomem, length-replicate, length-drop,
}
use grade15_1linux.UserCopy.Plain.{plain, plain_copy-CopyLaws, plain_copy_whole}
use grade15_1linux.BlockDevice.{disk_size}
use grade15_1linux.BlockDevice.Request.{Request, write}
use grade15_1linux.BlockDevice.Disk.{device_read, device_write, Writing}
use grade15_1linux.BlockDevice.Disk.Write.{device_read-device_write}
use grade15_1linux.BlockDevice.Module.{
  Answers, Driver, no_queue, queue_at, queue_error, exp_4_2_init, exp_4_2_exit,
}
use grade15_1linux.BlockDevice.Module.Resources.{
  held, nothing, Loaded, exp_4_2_init-Loaded, exp_4_2_exit-exp_4_2_init,
}

-- An empty disk of 16 MB, a page of 4 KB, and two sectors of the user.
zeros : (n : ℕ) → (bytes : Bytes) × (length bytes ≡ n)
zeros n = (replicate n 0, length-replicate n 0)

abbrev disk : Bytes
disk = (zeros disk_size).0

length-disk : length disk ≡ disk_size
length-disk = (zeros disk_size).1

abbrev page : Bytes
page = replicate 4096 0

abbrev letters : Bytes
letters = replicate 1024 7

whole_copy : (plain.copy_from_user (drop (3 * 512) disk) letters (2 * 512)).1 ≡ 0
whole_copy =
    plain_copy_whole (drop (3 * 512) disk) letters (2 * 512)
      (omega (arith, length-drop (3 * 512) disk, length-disk)) (omega arith)

device_read-device_write_example :
    (w : Writing) × (device_write plain letters (2 * 512) (3 * 512) disk ≡ some w)
    × (device_read w.disk 3 page 2 ≡ some (pos (2 * 512), splice 0 (take (2 * 512) letters) page))
device_read-device_write_example =
    device_read-device_write plain letters disk page 3 2 plain_copy-CopyLaws length-disk
      (omega arith) (omega arith) (omega arith) whole_copy

abbrev write_front : Request
write_front = record { rq_data_dir = write; blk_rq_pos = 0; blk_rq_sectors = 8 }

abbrev unloaded : Driver
unloaded = record {
  major_num = pos 0;
  disk_content = none;
  queue = no_queue;
  gendisk_ptr = none;
  calls = [];
}

abbrev no_request_queue : Answers
no_request_queue = record {
  memory = some 1;
  major = pos 250;
  queue = queue_error enomem;
  disk = some 4;
}

abbrev willing : Answers
willing = record { memory = some 1; major = pos 250; queue = queue_at 2; disk = some 4 }

held_none : held [] ≡ nothing
unfolding held
held_none = refl

exp_4_2_init-Loaded_example :
    Loaded no_request_queue
      (exp_4_2_init no_request_queue unloaded).0
      (held (exp_4_2_init no_request_queue unloaded).1.calls)
exp_4_2_init-Loaded_example = exp_4_2_init-Loaded no_request_queue unloaded held_none

-- The memory of the failed load.
leaked_memory : (held (exp_4_2_init no_request_queue unloaded).1.calls).memory ≡ some 1
unfolding exp_4_2_init held
leaked_memory = refl

loaded : (exp_4_2_init willing unloaded).0 ≡ pos 0
unfolding exp_4_2_init
loaded = refl

exp_4_2_exit-exp_4_2_init_example :
    held (exp_4_2_exit (exp_4_2_init willing unloaded).1).calls ≡ nothing
exp_4_2_exit-exp_4_2_init_example = exp_4_2_exit-exp_4_2_init willing unloaded held_none loaded
