-- ===== src/UserCopy/Plain.antt =====
-- A concrete pair of copies that meets the laws: it copies what both sides have room for.
use grade15_1linux.Common.{
  ℕ, ◌-◌, ◌≤◌, ◌≡◌, ◌∙◌, Bytes, length, get_elem?, take, drop, ◌++◌, min, arith, length-append,
  length-take, length-drop, get_elem?-append_right, get_elem?-drop,
}
use grade15_1linux.UserCopy.{UserCopy, CopyLaws}

abbrev pub plain_copy : Bytes → Bytes → ℕ → Bytes × ℕ
plain_copy dst src n =
    let m = min n (min (length src) (length dst)) in (take m src ++ drop m dst, n - m)

abbrev pub plain : UserCopy
plain = record { copy_from_user = plain_copy; copy_to_user = plain_copy }

overlay_size :
    (m : ℕ) (dst src : Bytes)
    → m ≤ length src
    → m ≤ length dst
    → length (take m src ++ drop m dst) ≡ length dst
overlay_size m dst src hs hd =
    omega (arith, length-append (take m src) (drop m dst), length-take m src, length-drop m dst)

overlay_beyond :
    (m i : ℕ) (dst src : Bytes)
    → m ≤ length src
    → m ≤ i
    → get_elem? (take m src ++ drop m dst) i ≡ get_elem? dst i
overlay_beyond m i dst src hs le =
    get_elem?-append_right (take m src) (drop m dst) i (i - m) (omega (arith, length-take m src))
    ∙ get_elem?-drop m (i - m) i dst (omega arith)

plain_whole :
    (dst src : Bytes) (n : ℕ)
    → n ≤ length dst
    → n ≤ length src
    → min n (min (length src) (length dst)) ≡ n
plain_whole dst src n hd hs = omega arith

pub plain_copy-CopyLaws : CopyLaws plain_copy
plain_copy-CopyLaws = record {
  size = λ dst src n.
      overlay_size (min n (min (length src) (length dst))) dst src (omega arith) (omega arith);
  beyond = λ dst src n i le.
      overlay_beyond (min n (min (length src) (length dst))) i dst src (omega arith) (omega arith);
  copied = λ dst src n hd hs ok. rw (plain_whole dst src n hd hs);
}

-- No copy within both blocks fails.
pub plain_copy_whole :
    (dst src : Bytes) (n : ℕ) → n ≤ length dst → n ≤ length src → (plain_copy dst src n).1 ≡ 0
plain_copy_whole dst src n hd hs = omega arith
