-- ===== src/Message/Input/Pieces.antt =====
-- One piece of the data of a message: message_read_data of cubelib/message/message.c.
use cube.Prelude.{
  ℕ, zero, suc, ◌+◌, ◌-◌, ◌≤◌, ◌<◌, ◌≡◌, refl, sym, ap, ap₂, ◌∙◌, true, false, ◌==◌, leb, some,
  List, [], ◌∷◌, ◌++◌, pos, length, memcpy, get_or, set, arith,
}
use cube.Message.{MessageBox, msg_box_loaddata, array}
use cube.Message.Input.{
  InputMemory, is_loaddata, total_size, message_read_data, read_chunk, rebuild,
}

memcpy-tail :
    (dest : List ℕ) (i x : ℕ) (src : List ℕ) (j n : ℕ)
    → memcpy dest i (x ∷ src) (suc j) n ≡ memcpy dest i src j n
unfolding memcpy
memcpy-tail dest i x src j zero = refl
memcpy-tail dest i x src j (suc n) =
    ap (λ k. memcpy (set dest i (get_or src j 0)) (i + 1) (x ∷ src) k n) (omega arith)
    ∙ memcpy-tail (set dest i (get_or src j 0)) (i + 1) x src (j + 1) n

memcpy_from :
    (dest src : List ℕ) (i j k n : ℕ)
    → i ≡ j
    → k ≡ n
    → memcpy dest i src 0 k ≡ memcpy dest j src 0 n
memcpy_from dest src i j k n p q = ap₂ (λ a b. memcpy dest a src 0 b) p q

-- Two copies one behind the other are the copy of both.
pub memcpy-append :
    (dest : List ℕ) (i : ℕ) (c d : List ℕ) (n : ℕ)
    → memcpy (memcpy dest i c 0 (length c)) (i + length c) d 0 n
      ≡ memcpy dest i (c ++ d) 0 (length c + n)
unfolding memcpy
memcpy-append dest i [] d n = memcpy_from dest d (i + 0) i n (0 + n) (omega arith) (omega arith)
memcpy-append dest i (x ∷ c) d n =
    ap (λ l. memcpy l (i + suc (length c)) d 0 n)
      (memcpy-tail (set dest i x) (i + 1) x c 0 (length c))
    ∙ memcpy_from (memcpy (set dest i x) (i + 1) c 0 (length c)) d (i + suc (length c))
        (i + 1 + length c) n n (omega arith) refl
    ∙ memcpy-append (set dest i x) (i + 1) c d n
    ∙ sym (memcpy-tail (set dest i x) (i + 1) x (c ++ d) 0 (length c + n))
    ∙ ap (λ k. memcpy dest i (x ∷ c ++ d) 0 k)
        (let e : suc (length c + n) ≡ suc (length c) + n = omega arith in e)

module _ {S : Type 0} where
  -- A box that waits for data behind `offset`.
  pub record Waits (m : MessageBox S) (contents : List ℕ) (offset : ℕ) : Type 0 where
    pub state : m.box_state ≡ msg_box_loaddata
    pub data_is : m.blob ≡ array contents
    pub offset_is : m.current_offset ≡ offset

  -- The box behind a chunk that does not complete the data.
  unfoldable pub advance : MessageBox S → List ℕ → ℕ → List ℕ → MessageBox S
  advance m contents offset c = record m {
    blob = array (memcpy contents offset c 0 (length c));
    current_offset = offset + length c;
  }

  read_data-read_chunk :
      (memory : InputMemory) (m : MessageBox S) (contents : List ℕ) (offset : ℕ) (c : List ℕ)
      → Waits m contents offset
      → 0 < length c
      → message_read_data memory m (some c) (pos (length c))
        ≡ read_chunk memory m c (length c) (array contents)
  unfolding message_read_data
  read_data-read_chunk memory m contents offset c w h =
      let some_bytes : (length c == 0) ≡ false = ground arith in
      rw (some_bytes, ap is_loaddata w.state) (ap (read_chunk memory m c (length c)) w.data_is)

  pub read_data-more :
      (memory : InputMemory) (m : MessageBox S) (contents : List ℕ) (offset : ℕ) (c : List ℕ)
      → Waits m contents offset
      → 0 < length c
      → offset + length c < total_size m.head
      → message_read_data memory m (some c) (pos (length c))
        ≡ some (pos 0, advance m contents offset c)
  unfolding read_chunk advance
  read_data-more memory m contents offset c w h more =
      read_data-read_chunk memory m contents offset c w h
      ∙ (let open_end : leb (total_size m.head) (length c + m.current_offset) ≡ false =
            ground (arith, w.offset_is) in
          rw open_end (
            ap
              (λ o. some (
                pos 0,
                record m {
                  blob = array (memcpy contents o c 0 (length c));
                  current_offset = o + length c;
                },
              ))
              w.offset_is))

  pub read_data-last :
      (memory : InputMemory) (m : MessageBox S) (contents : List ℕ) (offset : ℕ) (c : List ℕ)
      → Waits m contents offset
      → 0 < length c
      → total_size m.head ≤ offset + length c
      → message_read_data memory m (some c) (pos (length c))
        ≡ rebuild memory m
            (memcpy contents offset c 0 (total_size m.head - offset))
            (total_size m.head - offset)
  unfolding read_chunk
  read_data-last memory m contents offset c w h last =
      read_data-read_chunk memory m contents offset c w h
      ∙ (let full : leb (total_size m.head) (length c + m.current_offset) ≡ true =
            ground (arith, w.offset_is) in
          rw full (
            ap
              (λ o.
                rebuild memory m (memcpy contents o c 0 (total_size m.head - o))
                  (total_size m.head - o))
              w.offset_is))
