-- ===== src/Ramdisk/Examples.antt =====
-- A small request queue that meets the laws, and instances of the theorems about the driver of
-- exp4/exp_4_2_ramdisk_driver.c.
use grade15_1linux.Common.{
  ℕ, ◌+◌, ◌*◌, ◌^◌, ◌≡◌, refl, true, false, Option, none, some, arith, List, [], ◌∷◌, Bytes,
  replicate, splice, pos, negsuc,
}
use grade15_1linux.Ramdisk.{BlkQueue}
use grade15_1linux.Ramdisk.Request.{done, next, my_request}
use grade15_1linux.Ramdisk.Request.Queue.{Segment, segment, QueueLaws, play, my_request-play}
use grade15_1linux.Ramdisk.Ioctl.{fake_geometry}
use grade15_1linux.Ramdisk.Module.{Answers, Driver, my_init_original, my_exit_original}
use grade15_1linux.Ramdisk.Module.Resources.{
  held, nothing, Loaded, my_init_original-Loaded, my_exit_original-my_init_original,
}

abbrev idle : Segment
idle = record { pos = 0; nr = 0; is_write = false; buffer = [] }

abbrev front : List Segment → Segment
front [] = idle
front (s ∷ q) = s

abbrev behind : List Segment → List Segment
behind [] = []
behind (s ∷ q) = q

abbrev put : Bytes → List Segment → List Segment
put b [] = []
put b (s ∷ q) = record s { buffer = b } ∷ q

abbrev peek : List Segment → Option ℕ
peek [] = none
peek (s ∷ q) = some 0

-- A queue is its segments; the request is the front one.
abbrev plain : BlkQueue (List Segment) ℕ
plain = record {
  blk_rq_cur_sectors = λ rq q. (front q).nr;
  blk_rq_pos = λ rq q. (front q).pos;
  rq_data_dir = λ rq q. (front q).is_write;
  bio_data = λ rq q. (front q).buffer;
  fill = λ rq b q. put b q;
  blk_end_request_cur = λ rq q. (false, behind q);
  blk_get_request = λ q. (peek q, q);
  blk_fetch_request = λ q. (peek q, q);
}

abbrev plain_script : Option ℕ → List Segment → List Segment
plain_script none q = []
plain_script (some rq) [] = idle ∷ []
plain_script (some rq) (s ∷ q) = s ∷ q

plain_script-some :
    (rq : ℕ) (q : List Segment)
    → plain_script (some rq) q
      ≡ segment plain rq q ∷ plain_script (next plain rq q).0 (next plain rq q).1
unfolding next
plain_script-some rq [] = refl
plain_script-some rq (s ∷ []) = refl
plain_script-some rq (s ∷ t ∷ q) = refl

plain_script-fill :
    (rq : ℕ) (b : Bytes) (q : List Segment)
    → plain_script (next plain rq (put b q)).0 (next plain rq (put b q)).1
      ≡ plain_script (next plain rq q).0 (next plain rq q).1
unfolding next
plain_script-fill rq b [] = refl
plain_script-fill rq b (s ∷ q) = refl

abbrev plain-QueueLaws : QueueLaws plain
plain-QueueLaws = record {
  script = plain_script;
  script_none = λ q. refl;
  script_some = plain_script-some;
  script_fill = plain_script-fill;
}

-- A disk of two sectors; a write of the second, a read of the first, and a write behind the end.
abbrev disk : Bytes
disk = replicate 1024 0

abbrev write_second : Segment
write_second = record { pos = 1; nr = 1; is_write = true; buffer = replicate 512 7 }

abbrev read_first : Segment
read_first = record { pos = 0; nr = 1; is_write = false; buffer = replicate 512 9 }

abbrev write_third : Segment
write_third = record { pos = 2; nr = 1; is_write = true; buffer = replicate 512 8 }

-- 4 GB behind the second sector.
abbrev write_far : Segment
write_far = record { pos = 1 + 2 ^ 23; nr = 1; is_write = true; buffer = replicate 512 7 }

abbrev write_long : Segment
write_long = record { pos = 0; nr = 2 ^ 22; is_write = true; buffer = replicate 512 7 }

abbrev script : List Segment
script = write_second ∷ read_first ∷ write_third ∷ []

my_request-play_example :
    (q' : List Segment) × (my_request plain 3 disk script ≡ done (play script disk) q')
my_request-play_example =
    my_request-play plain plain-QueueLaws 3 disk script (some 0) script refl (omega arith)
      (omega arith) (omega arith)

play_result : play script disk ≡ splice 512 (replicate 512 7) disk
unfolding play
play_result = refl

-- The default of 256 MB is reported with no cylinder at all.
default_geometry : (fake_geometry (256 * 1024 * 1024)).cylinders ≡ 0
unfolding fake_geometry
default_geometry = refl

abbrev unloaded : Driver
unloaded = record {
  mybdrv_ma_no = pos 0;
  disk_size = 0;
  ramdisk = none;
  my_gd = none;
  my_request_queue = none;
  calls = [];
}

abbrev no_major : Answers
no_major = record { memory = some 1; queue = some 2; major = negsuc 15; disk = some 4 }

abbrev willing : Answers
willing = record { memory = some 1; queue = some 2; major = pos 250; disk = some 4 }

held_none : held [] ≡ nothing
unfolding held
held_none = refl

my_init_original-Loaded_example :
    Loaded no_major
      (my_init_original no_major 256 unloaded).0
      (held (my_init_original no_major 256 unloaded).1.calls)
my_init_original-Loaded_example = my_init_original-Loaded no_major 256 unloaded held_none

-- The queue of the failed load.
leaked_queue : (held (my_init_original no_major 256 unloaded).1.calls).queue ≡ some 2
unfolding my_init_original held
leaked_queue = refl

loaded : (my_init_original willing 256 unloaded).0 ≡ pos 0
unfolding my_init_original
loaded = refl

my_exit_original-my_init_original_example :
    held (my_exit_original (my_init_original willing 256 unloaded).1).calls ≡ nothing
my_exit_original-my_init_original_example =
    my_exit_original-my_init_original willing 256 unloaded held_none loaded
