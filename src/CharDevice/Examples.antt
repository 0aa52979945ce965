-- ===== src/CharDevice/Examples.antt =====
-- Instances of the theorems about exp4/exp4_1_kernel.c.
use grade15_1linux.Common.{◌≡◌, refl, none, some, [], pos}
use grade15_1linux.CharDevice.{Answers, Driver, device_init, device_exit}
use grade15_1linux.CharDevice.Resources.{
  held, nothing, Loaded, device_init-Loaded, device_exit-device_init,
}

abbrev unloaded : Driver
unloaded = record { my_cdev = none; calls = [] }

-- There is no memory for the structure, and the variable that is returned holds 0.
abbrev no_cdev_answers : Answers
no_cdev_answers = record { region = pos 0; cdev = none; add = pos 0; uninitialised = pos 0 }

abbrev willing : Answers
willing = record { region = pos 0; cdev = some 4; add = pos 0; uninitialised = pos 0 }

held_none : held [] ≡ nothing
unfolding held
held_none = refl

device_init-Loaded_example :
    Loaded no_cdev_answers
      (device_init no_cdev_answers unloaded).0
      (held (device_init no_cdev_answers unloaded).1.calls)
device_init-Loaded_example = device_init-Loaded no_cdev_answers unloaded held_none

-- This load reports success, and has made no device.
success_without_device : (device_init no_cdev_answers unloaded).0 ≡ pos 0
unfolding device_init
success_without_device = refl

loaded : (device_init willing unloaded).0 ≡ pos 0
unfolding device_init
loaded = refl

device_exit-device_init_example :
    held (device_exit (device_init willing unloaded).1).calls ≡ record nothing { cdev = some 4 }
device_exit-device_init_example = device_exit-device_init willing unloaded held_none refl loaded
