-- ===== src/Common/Int.antt =====
-- Signed integers over the native numbers: the values that functions of the kernel return, where a
-- negative one is an error.
use Prim.Native.Nat.{ℕ}
use mathlib.Core.Bool.{Bool, true, false}
use mathlib.Core.Path.{◌≡◌, refl}

-- `negsuc n` is -(n + 1).
pub data ℤ : Type 0 where
  pos : ℕ → ℤ
  negsuc : ℕ → ℤ

abbrev pub is_negative : ℤ → Bool
is_negative (pos n) = false
is_negative (negsuc n) = true

-- C's truth value of an integer: everything but 0.
abbrev pub is_nonzero : ℤ → Bool
is_nonzero (pos n) = elim n [ ℕ.zero ↦ false | ℕ.suc k ↦ true ]
is_nonzero (negsuc n) = true

-- The error numbers of the kernel's headers, as they are returned.
abbrev pub eperm : ℤ
eperm = negsuc 0

abbrev pub eio : ℤ
eio = negsuc 4

abbrev pub enxio : ℤ
enxio = negsuc 5

abbrev pub enomem : ℤ
enomem = negsuc 11

abbrev pub eacces : ℤ
eacces = negsuc 12

abbrev pub efault : ℤ
efault = negsuc 13

abbrev pub einval : ℤ
einval = negsuc 21

abbrev pub enotty : ℤ
enotty = negsuc 24

-- A number that is not negative.
abbrev pub Natural : ℤ → Type 0
Natural z = (n : ℕ) × (z ≡ pos n)

pub natural : (z : ℤ) → is_negative z ≡ false → Natural z
natural (pos n) e = (n, refl)
natural (negsuc n) e = absurd (cc e)
