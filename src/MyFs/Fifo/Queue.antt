-- ===== src/MyFs/Fifo/Queue.antt =====
-- A queue of at most 64 bytes, and calls on it: the specification of the files' reads and writes in
-- course_design/myfs_kernel.c.
use grade15_1linux.Common.{
  ℕ, ◌-◌, ◌≤◌, ◌≡◌, ap, sym, ◌∙◌, arith, List, [], ◌∷◌, ◌++◌, Bytes, length, take, drop, min, ℤ,
  pos, append-nil, append_assoc, take-append-drop, length-append, length-take, length-drop,
}

abbrev pub queue_size : ℕ
queue_size = 64

-- A call on the file of some number.
pub data Op : Type 0 where
  read : ℕ → Bytes → ℕ → Op
  write : ℕ → Bytes → Op

-- The value of the call, and the bytes that a read delivered.
abbrev pub Reply : Type 0
Reply = ℤ × Bytes

abbrev pub room : Bytes → ℕ
room q = queue_size - length q

-- The replies to some calls, and the bytes that stay in the queue.
unfoldable pub queue_run : List Op → Bytes → List Reply × Bytes
queue_run [] q = ([], q)
queue_run (read file user n ∷ ops) q =
    let rest = queue_run ops (drop n q) in ((pos (min n (length q)), take n q) ∷ rest.0, rest.1)
queue_run (write file bytes ∷ ops) q =
    let n = min (length bytes) (room q) in
    let rest = queue_run ops (q ++ take n bytes) in ((pos n, []) ∷ rest.0, rest.1)

-- The bytes that the reads delivered, and those that the writes were told to have written.
abbrev pub received : List Reply → Bytes
received [] = []
received ((code, bytes) ∷ replies) = bytes ++ received replies

abbrev pub count_of : ℤ → ℕ
count_of (pos n) = n
count_of _ = 0

abbrev pub sent : List Op → List Reply → Bytes
sent [] replies = []
sent (op ∷ ops) [] = []
sent (read file user n ∷ ops) (reply ∷ replies) = sent ops replies
sent (write file bytes ∷ ops) ((code, _) ∷ replies) = take (count_of code) bytes ++ sent ops replies

-- Nothing is lost, made up or reordered: what was in the queue and then what the writes sent, in
-- order, is what the reads received and then what is left.
pub queue_order :
    (ops : List Op) (q : Bytes)
    → let (replies, rest) = queue_run ops q in received replies ++ rest ≡ q ++ sent ops replies
unfolding queue_run
queue_order [] q = sym (append-nil q)
queue_order (read file user n ∷ ops) q =
    let (replies, rest) = queue_run ops (drop n q) in
    append_assoc (take n q) (received replies) rest
    ∙ ap (λ bs. take n q ++ bs) (queue_order ops (drop n q))
    ∙ sym (append_assoc (take n q) (drop n q) (sent ops replies))
    ∙ ap (λ bs. bs ++ sent ops replies) (take-append-drop n q)
queue_order (write file bytes ∷ ops) q =
    let n = min (length bytes) (room q) in
    let (replies, rest) = queue_run ops (q ++ take n bytes) in
    queue_order ops (q ++ take n bytes) ∙ append_assoc q (take n bytes) (sent ops replies)

-- The queue never holds more than 64 bytes.
pub queue_bounded :
    (ops : List Op) (q : Bytes) → length q ≤ queue_size → length (queue_run ops q).1 ≤ queue_size
unfolding queue_run
queue_bounded [] q h = h
queue_bounded (read file user n ∷ ops) q h =
    queue_bounded ops (drop n q) (omega (arith, length-drop n q))
queue_bounded (write file bytes ∷ ops) q h =
    let n = min (length bytes) (room q) in
    queue_bounded ops (q ++ take n bytes)
      (omega (arith, length-append q (take n bytes), length-take n bytes))
