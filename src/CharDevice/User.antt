-- ===== src/CharDevice/User.antt =====
-- exp4/exp4.1.user.c: the program that opens the device, reads from it and reports success.
use grade15_1linux.Common.{
  ℕ, ◌≡◌, refl, List, [], ◌∷◌, ◌++◌, Bytes, is_negative, if◌then◌else◌, ℤ, pos, negsuc,
}
use grade15_1linux.CharDevice.Handlers.{Line, major, minor, enter, my_open, my_read}

-- What the program prints: the error of `open`, and its two messages.
pub data Printed : Type 0 where
  failed_to_open ready_to_read read_success : Printed

-- The value of `main`, its output, and what stands in its buffer and in the device then.
pub record End (D : Type 0) : Type 0 where
  pub value : ℤ
  pub output : List Printed
  pub buffer : Bytes
  pub device : D

-- The calls of the system, on the state of the device: `open` gives a file descriptor, or an error.
module _ {D : Type 0} (open_file : D → ℤ × D) (read_file : Bytes → ℕ → D → (ℤ × Bytes) × D)
    (close_file : D → D) where
  unfoldable pub main : Bytes → D → End D
  main buffer d =
      let (fd, d1) = open_file d in
      let ((n, buffer'), d2) = read_file buffer 64 d1 in
      if is_negative fd
      then record { value = negsuc 0; output = failed_to_open ∷ []; buffer = buffer; device = d1 }
      else record {
        value = pos 0;
        output = ready_to_read ∷ read_success ∷ [];
        buffer = buffer';
        device = close_file d2;
      }

-- The calls on the log of the driver, where the system gives `fd` to a file that the driver opens; the
-- driver has no handler for the end of a file.
module _ (major_of minor_of : ℕ → ℕ) (i_rdev fd : ℕ) where
  unfoldable pub open_device : List Line → ℤ × List Line
  unfolding my_open
  open_device log =
      let (code, log') = my_open major_of minor_of i_rdev log in
      (if is_negative code then code else pos fd, log')

  unfoldable pub read_device : Bytes → ℕ → List Line → (ℤ × Bytes) × List Line
  unfolding my_read
  read_device buffer count log =
      let ((n, out, p), log') = my_read buffer count 0 log in ((n, out), log')

  -- On the driver, the program always says that its read was a success, but its buffer is as it was,
  -- and the driver has printed the numbers of the device and then that it was read.
  pub main-my_read :
      (buffer : Bytes) (log : List Line)
      → main open_device read_device (λ d. d) buffer log ≡ record {
        value = pos 0;
        output = ready_to_read ∷ read_success ∷ [];
        buffer = buffer;
        device =
            (log ++ major (major_of i_rdev) ∷ minor (minor_of i_rdev) ∷ []) ++ enter "my_read" ∷ [];
      }
  unfolding main open_device read_device my_open my_read
  main-my_read buffer log = refl
