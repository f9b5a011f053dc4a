-- ===== src/ChannelBuf/Stream.antt =====
-- Reads and writes of one buffer in any order.
use cube.Prelude.{
  ℕ, ◌≤◌, ◌≡◌, sym, ap, ◌∙◌, List, [], ◌++◌, arith, length, slice, drop, append-nil, append_assoc,
  take-append-drop,
}
use cube.ChannelBuf.{ChannelBuf, read, write}
use cube.ChannelBuf.Contents.{IsValid, contents}
use cube.ChannelBuf.Read.{Reads, read-Reads}
use cube.ChannelBuf.Write.{Writes, Safe, write-Writes}

-- From the buffer `b` some calls lead to another buffer, with the bytes that the writers were told
-- are stored (first) and those that the readers were given (second), in order.
pub data Stream (b : ChannelBuf) : List ℕ → List ℕ → ChannelBuf → Type 0 where
  start : Stream b [] [] b
  put :
      {sent got : List ℕ} {c : ChannelBuf} (from : List ℕ) (size : ℕ)
      → Safe c size
      → Stream b sent got c
      → Stream b (sent ++ slice from 0 (write c from size).0) got (write c from size).1
  get :
      {sent got : List ℕ} {c : ChannelBuf} (into : List ℕ) (size : ℕ)
      → size ≤ length into
      → Stream b sent got c
      → Stream b sent
          (got ++ slice (read c into size).1 0 (read c into size).0)
          (read c into size).2

-- Nothing is lost, duplicated or reordered: what waited at first and what was written since is what
-- was read followed by what still waits. The invariant holds throughout.
pub Stream-fifo :
    {b c : ChannelBuf} {sent got : List ℕ}
    → IsValid b
    → Stream b sent got c
    → IsValid c × (contents b ++ sent ≡ got ++ contents c)
Stream-fifo {b} v start = (v, append-nil (contents b))
Stream-fifo {b} v (put {sent = sent} {got = got} {c = c} from size safe s) =
    let (valid, e) = Stream-fifo v s in
    let w : Writes c from size (write c from size) = write-Writes c from size valid safe in
    let new : List ℕ = slice from 0 (write c from size).0 in
    (
      w.valid,
      sym (append_assoc (contents b) sent new)
          ∙ ap (λ l. l ++ new) e
          ∙ append_assoc got (contents c) new
          ∙ ap (λ l. got ++ l) (sym w.bytes),
    )
Stream-fifo {b} v (get {sent = sent} {got = got} {c = c} into size h s) =
    let (valid, e) = Stream-fifo v s in
    let r : Reads c size (read c into size) = read-Reads c into size valid (omega arith) in
    let n : ℕ = (read c into size).0 in
    (
      r.valid,
      e
          ∙ ap (λ l. got ++ l)
              (sym (take-append-drop n (contents c))
                ∙ ap (λ l. l ++ drop n (contents c)) (sym r.bytes)
                ∙ ap (λ l. slice (read c into size).1 0 n ++ l) (sym r.rest))
          ∙ sym (append_assoc got (slice (read c into size).1 0 n) (contents (read c into size).2)),
    )
