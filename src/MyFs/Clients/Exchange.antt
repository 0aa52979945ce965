-- ===== src/MyFs/Clients/Exchange.antt =====
-- course_design/test1.c, course_design/test1rdonly.c: what the programs print and leave.
use grade15_1linux.Common.{
  ℕ, ◌+◌, ◌-◌, ◌*◌, ◌<◌, ◌≤◌, ◌≡◌, ◌∙◌, refl, ap, ap₂, subst, append-nil, arith, true, false, none,
  some, [], ◌∷◌, ◌++◌, Bytes, length, take, drop, min, replicate, text, NoNul, pos, negsuc, ◌==◌,
  length-append, take_all, drop_all,
}
use grade15_1linux.MyFs.Fifo.{Kfifo, FifoLaws}
use grade15_1linux.MyFs.File.{MyfsFileInfo, myfs_file_read, myfs_file_write, myfs_file_release}
use grade15_1linux.MyFs.File.Session.{Reliable, write_reply}
use grade15_1linux.MyFs.Clients.{
  wrong_write, read_bytes, read_buffer, message, len, Answers, Ended, open_file, read_back, test1,
  test1rdonly,
}
use grade15_1linux.MyFs.Clients.Buffer.{formatted-nul, formatted-NoNul, zeros}

-- The file can be opened, and `malloc` succeeds.
pub record Opens (a : Answers) : Type 0 where
  pub fd : (open_file a).0 ≡ pos a.fd
  pub block : (info : MyfsFileInfo) × ((open_file a).1 ≡ some info)
  pub memory : a.malloc ≡ true

module _ {F : Type 0} (k : Kfifo F) (laws : FifoLaws k) (reliable : Reliable k) where
  open laws use {held}

  -- What a program ends with that has read the bytes `q`.
  pub record Reads (q : Bytes) (e : Ended F) : Type 0 where
    pub code : e.code ≡ pos 0
    pub lines : e.lines ≡ read_bytes (pos (length q)) ∷ read_buffer (text q) ∷ []
    pub empty : held e.fifo ≡ []

  read_lem :
      (user : Bytes) (n : ℕ) (f : F)
      → n ≤ length user
      → myfs_file_read k user n f ≡ (
        pos (min n (length (held f))),
        take n (held f) ++ drop (min n (length (held f))) user,
        (k.to_user f user n).fifo,
      )
  unfolding myfs_file_read
  read_lem user n f big =
      let ok = reliable.reads f user n big in
      rw ok (
        ap₂ (λ m (u : Bytes). (pos m, u, (k.to_user f user n).fifo)) (laws.read_count f user n ok)
          (laws.read_user f user n ok big))

  -- Few bytes are read as a string of their own: the buffer is cleared before.
  read_few :
      (user : Bytes) (f : F)
      → user ≡ replicate (2 * len) 0
      → length (held f) < 2 * len
      → (r : Bytes) × (myfs_file_read k user (2 * len) f
          ≡ (pos (length (held f)), held f ++ 0 ∷ r, (k.to_user f user (2 * len)).fifo))
  read_few user f clear few =
      let (r, e) = zeros (length (held f)) (2 * len) few in
      let all : min (2 * len) (length (held f)) ≡ length (held f) = ground arith in
      let rest : drop (min (2 * len) (length (held f))) user ≡ 0 ∷ r = ap₂ drop all clear ∙ e in
      (
        r,
        read_lem user (2 * len) f (omega (arith, ap length clear))
            ∙ ap₂ (λ m (u : Bytes). (pos m, u, (k.to_user f user (2 * len)).fifo)) all
                (ap₂ ◌++◌ (take_all (2 * len) (held f) (omega arith)) rest),
      )

  read_back-Reads :
      (a : Answers) (info : MyfsFileInfo) (f : F)
      → a.malloc ≡ true
      → length (held f) < 2 * len
      → (e : Ended F) × (read_back k a (some info) f ≡ some e) × Reads (held f) e
  unfolding read_back myfs_file_release
  read_back-Reads a info f memory few =
      let (r, got) = read_few (replicate (2 * len) 0) f refl few in
      let fifo = (k.to_user f (replicate (2 * len) 0) (2 * len)).fifo in
      (
        record {
          code = pos 0;
          lines = read_bytes (pos (length (held f))) ∷ read_buffer (text (held f)) ∷ [];
          fifo = fifo;
        },
        rw (memory, got, formatted-nul (held f) r, got) refl,
        record {
          code = refl;
          lines = refl;
          empty =
              laws.read_held f (replicate (2 * len) 0) (2 * len)
                (reliable.reads f (replicate (2 * len) 0) (2 * len) (omega arith))
              ∙ drop_all (2 * len) (held f) (omega arith);
        },
      )

  test1rdonly-read_back :
      (a : Answers) (f : F) (o : Opens a) → test1rdonly k a f ≡ read_back k a (some o.block.0) f
  unfolding test1rdonly
  test1rdonly-read_back a f o = rw (o.fd, o.block.1) refl

  -- Where the file can be opened, `malloc` succeeds and fewer than 20 bytes are in the buffer: the
  -- program that only reads prints their number and the string that they begin with, returns 0, and
  -- leaves the buffer empty.
  pub test1rdonly-Reads :
      (a : Answers) (f : F)
      → Opens a
      → length (held f) < 2 * len
      → (e : Ended F) × (test1rdonly k a f ≡ some e) × Reads (held f) e
  test1rdonly-Reads a f o few =
      let (e, ends, reads) = read_back-Reads a o.block.0 f o.memory few in
      (e, test1rdonly-read_back a f o ∙ ends, reads)

  -- The write of the message, whole or short.
  written :
      (f : F)
      → ((myfs_file_write k message len f).0 ≡ pos (min len (64 - length (held f))))
        × (held (myfs_file_write k message len f).1
            ≡ held f ++ take (min len (64 - length (held f))) message)
  unfolding message
  written f = write_reply k laws f message (reliable.writes f message len (omega arith))

  -- Where the file can be opened, `malloc` succeeds and fewer than 10 bytes are in the buffer: the
  -- program's write succeeds, and it then reads what the buffer held and its message behind it, prints
  -- their number and the string that they begin with, returns 0, and leaves the buffer empty.
  pub test1-Reads :
      (a : Answers) (f : F)
      → Opens a
      → length (held f) < len
      → (e : Ended F) × (test1 k a f ≡ some e) × Reads (held f ++ message) e
  unfolding test1 message
  test1-Reads a f o few =
      let f' = (myfs_file_write k message len f).1 in
      let whole : min len (64 - length (held f)) ≡ len = omega arith in
      let wrote = (written f).0 ∙ ap pos whole in
      let now = (written f).1 ∙ ap (λ n. held f ++ take n message) whole in
      let (e, ends, reads) =
        read_back-Reads a o.block.0 f' o.memory
          (omega (arith, ap length now, length-append (held f) message)) in
      (e, rw (o.fd, o.block.1, wrote) ends, subst (λ q. Reads q e) now reads)

  -- Where the file can be opened, `malloc` would succeed and the buffer has no room for the whole
  -- message: the program prints "wrong write" and returns -1, but as much of the message as had
  -- room stays in the buffer.
  pub test1_short_write :
      (a : Answers) (f : F)
      → Opens a
      → 64 < length (held f) + len
      → (e : Ended F) × (test1 k a f ≡ some e)
        × (e.code ≡ negsuc 0)
        × (e.lines ≡ wrong_write ∷ [])
        × (held e.fifo ≡ held f ++ take (64 - length (held f)) message)
  unfolding test1
  test1_short_write a f o full =
      let part : min len (64 - length (held f)) ≡ 64 - length (held f) = omega arith in
      let short : (64 - length (held f) == len) ≡ false = ground arith in
      (
        record {
          code = negsuc 0;
          lines = wrong_write ∷ [];
          fifo = (myfs_file_write k message len f).1;
        },
        rw (o.fd, (written f).0, part, short) refl,
        refl,
        refl,
        (written f).1 ∙ ap (λ n. held f ++ take n message) part,
      )

  -- Where the file can be opened, `malloc` succeeds and the first 20 bytes of the buffer have no
  -- NUL among them: the program that only reads faults, since the string that it prints does not
  -- end in its own buffer.
  pub test1rdonly_faults :
      (a : Answers) (f : F)
      → Opens a
      → 2 * len ≤ length (held f)
      → NoNul (take (2 * len) (held f))
      → test1rdonly k a f ≡ none
  unfolding read_back
  test1rdonly_faults a f o many raw =
      let zero_buffer : Bytes = replicate (2 * len) 0 in
      let full : min (2 * len) (length (held f)) ≡ 2 * len = omega arith in
      let got =
        read_lem zero_buffer (2 * len) f (omega arith)
        ∙ ap
            (λ n. (
              pos n,
              take (2 * len) (held f) ++ drop n zero_buffer,
              (k.to_user f zero_buffer (2 * len)).fifo,
            ))
            full in
      test1rdonly-read_back a f o
      ∙ rw
          (
            o.memory,
            got,
            append-nil (take (2 * len) (held f)),
            formatted-NoNul (take (2 * len) (held f)) raw,
          )
          refl
