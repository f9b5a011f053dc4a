-- ===== src/Message/Input/Source.antt =====
-- message_read_from_src of cubelib/message/message.c.
use cube.Prelude.{
  ℕ, ◌+◌, ◌-◌, ◌≤◌, ◌<◌, ◌≡◌, refl, ap, ◌∙◌, Bool, true, false, ◌==◌, ◌||◌, ltb, leb, if◌then◌else◌,
  Option, none, some, List, [], ◌∷◌, ℤ, pos, negsuc, einval, is_zero, length, memcpy, min, arith,
}
use cube.MessageQueue.{is_negative}
use cube.Message.{MessageHead, MessageBox, sizeof_msg_head}
use cube.Message.Input.{total_size, InputMemory, message_read_head, message_read_data}
use cube.Message.Input.Pieces.{Waits, advance, read_data-more}

module _ {S : Type 0} where
  -- A round of the loop of `message_read_from_src` behind `message_read_data`: `rest` goes on.
  unfoldable pub source_step :
      ℕ
      → ℕ
      → (MessageBox S → Option (ℕ × MessageBox S))
      → Option (ℤ × MessageBox S)
      → Option (ℕ × MessageBox S)
  source_step read_size offset rest none = none
  source_step read_size offset rest (some (negsuc status, m)) = some (offset, m)
  source_step read_size offset rest (some (pos n, m)) =
      if ltb n read_size then some (offset, m) else rest m

  -- The loop of `message_read_from_src`: the bytes that are taken as read, and the message. `reads`
  -- are the results of the calls of `read_func` with what each read; behind the last one it gives 0.
  unfoldable pub source_loop :
      InputMemory → List (ℤ × List ℕ) → MessageBox S → ℕ → ℕ → Option (ℕ × MessageBox S)
  unfolding message_read_data source_step
  source_loop memory [] m offset message_size = some (offset, m)
  source_loop memory ((ret, chunk) ∷ reads) m offset message_size =
      let read_size : ℕ = min (message_size - offset) 4096 in
      if leb message_size offset || is_negative ret || is_zero ret
      then some (offset, m)
      else source_step read_size offset
          (λ m'. source_loop memory reads m' (offset + read_size) message_size)
          (message_read_data memory m (some chunk) ret)

  -- `message_read_from_src` behind a head that was read whole: `parsed` is what `blob_2_struct`
  -- makes of it, and `reads` are the reads behind it.
  unfoldable pub message_read_from_src :
      Bool
      → Bool
      → InputMemory
      → ℤ × MessageHead
      → List (ℤ × List ℕ)
      → Option (ℤ × Option (MessageBox S))
  unfolding message_read_head source_loop
  message_read_from_src for_box for_data memory parsed reads =
      let (status, message) = message_read_head for_box for_data parsed sizeof_msg_head in
      elim message [
        | none ↦ some (einval, none)
        | some m ↦ elim (source_loop memory reads m 0 (total_size m.head)) [
          | none ↦ none
          | some (offset, m') ↦ some (pos (sizeof_msg_head + offset), some m')
        ]
      ]

module _ {S : Type 0} (memory : InputMemory) where
  -- Data of more than 4096 bytes is never complete: the first read, of at most 4096 bytes, is
  -- stored, but message_read_data returns 0 for it, at which the loop of message_read_from_src
  -- ends with none of the bytes counted and the box still waiting for data, whatever more could be
  -- read.
  pub source_loop-long :
      (m : MessageBox S) (contents chunk : List ℕ) (reads : List (ℤ × List ℕ))
      → Waits m contents 0
      → 0 < length chunk
      → length chunk ≤ 4096
      → 4096 < total_size m.head
      → (m' : MessageBox S) × (source_loop memory
            ((pos (length chunk), chunk) ∷ reads)
            m
            0
            (total_size m.head)
          ≡ some (0, m'))
        × Waits m' (memcpy contents 0 chunk 0 (length chunk)) (length chunk)
  unfolding source_loop advance
  source_loop-long m contents chunk reads w some_bytes few long =
      let m' : MessageBox S = advance m contents 0 chunk in
      let going : (leb (total_size m.head) 0 || false || (length chunk == 0)) ≡ false =
        ground arith in
      let size : ℕ = min (total_size m.head - 0) 4096 in
      let short : ltb 0 size ≡ true = ground arith in
      let rest : MessageBox S → Option (ℕ × MessageBox S) =
        λ b. source_loop memory reads b (0 + size) (total_size m.head) in
      (
        m',
        ap
              (λ b.
                if b
                then some (0, m)
                else source_step size 0 rest
                    (message_read_data memory m (some chunk) (pos (length chunk))))
              going
            ∙ ap (source_step size 0 rest)
                (read_data-more memory m contents 0 chunk w some_bytes (omega arith))
            ∙ ap (λ b. if b then some (0, m') else rest m') short,
        record { state = w.state; data_is = refl; offset_is = omega arith },
      )
