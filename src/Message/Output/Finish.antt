-- ===== src/Message/Output/Finish.antt =====
-- The end of message_output_blob of cubelib/message/message.c.
use cube.Prelude.{
  ℕ, ◌+◌, ◌≤◌, ◌≡◌, refl, sym, ap, ap₂, ◌∙◌, true, leb, some, List, ◌++◌, pos, inr, length,
  length-append, length-replicate, memcpy, slice, slice_all, slice-add, slice-memcpy,
  slice-memcpy_outside, length-memcpy, length-slice, replicate, arith,
}
use cube.EnumFlag.{store}
use cube.Message.{int_bytes, head_bytes, sizeof_msg_head, MessageHead, MessageBox, freed}
use cube.Message.Output.{copy_to}
use cube.Message.Output.Blob.{handed_out, finish_blob}

length-int_bytes : (n : ℕ) → length (int_bytes n) ≡ 4
unfolding store
length-int_bytes n = refl

pub length-head_bytes : (h : MessageHead) → length (head_bytes h) ≡ sizeof_msg_head
unfolding head_bytes
length-head_bytes h = simp (length-append, length-slice, length-int_bytes)

module _ {S : Type 0} where
  handed_out_lem :
      (m : MessageBox S) (whole : List ℕ) (size : ℕ)
      → size ≤ length whole
      → handed_out m size (copy_to (replicate size 0) 0 whole size)
        ≡ some (pos size, some (slice whole 0 size), record m { blob = freed })
  unfolding handed_out copy_to
  handed_out_lem m whole size h =
      let zeros : List ℕ = replicate size 0 in
      let n : length zeros ≡ size = length-replicate size 0 in
      let inside : leb (0 + size) (length zeros) ≡ true = ground (arith, n) in
      let there : leb size (length whole) ≡ true = ground arith in
      let out : List ℕ = memcpy (replicate size 0) 0 whole 0 size in
      rw (inside, there)
        (ap (λ l. some (pos size, some l, record m { blob = freed }))
          (sym (slice_all out)
            ∙ ap (slice out 0) (length-memcpy (replicate size 0) 0 whole 0 size ∙ n)
            ∙ slice-memcpy (replicate size 0) 0 whole 0 size (omega (arith, n))))

  -- The head goes in front of what stands in the buffer behind it.
  pub finish_blob_lem :
      (m : MessageBox S) (buffer content : List ℕ)
      → m.head.record_size + m.head.expand_size ≡ length content
      → sizeof_msg_head + length content ≤ length buffer
      → slice buffer sizeof_msg_head (length content) ≡ content
      → finish_blob true m buffer
        ≡ some (
          pos (sizeof_msg_head + length content),
          some (head_bytes m.head ++ content),
          record m { blob = freed },
        )
  unfolding finish_blob
  finish_blob_lem m buffer content e h is =
      let whole : List ℕ = memcpy buffer 0 (head_bytes m.head) 0 sizeof_msg_head in
      let n : length whole ≡ length buffer =
        length-memcpy buffer 0 (head_bytes m.head) 0 sizeof_msg_head in
      let total : ℕ = sizeof_msg_head + m.head.record_size + m.head.expand_size in
      let size : total ≡ sizeof_msg_head + length content = omega arith in
      handed_out_lem m whole total (omega arith)
      ∙ ap (λ k. some (pos k, some (slice whole 0 k), record m { blob = freed })) size
      ∙ ap (λ l. some (pos (sizeof_msg_head + length content), some l, record m { blob = freed }))
          (slice-add whole 0 sizeof_msg_head (length content)
            ∙ ap₂ ◌++◌
                (slice-memcpy buffer 0 (head_bytes m.head) 0 sizeof_msg_head (omega arith)
                  ∙ ap (slice (head_bytes m.head) 0) (sym (length-head_bytes m.head))
                  ∙ slice_all (head_bytes m.head))
                (slice-memcpy_outside buffer 0 (head_bytes m.head) 0 sizeof_msg_head sizeof_msg_head
                    (length content) (inr (omega arith))
                  ∙ is))
