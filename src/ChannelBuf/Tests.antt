-- ===== src/ChannelBuf/Tests.antt =====
-- Runs of a channel buffer of five bytes, and the theorems at such buffers.
use cube.Prelude.{ℕ, ◌≡◌, refl, List, [], ◌∷◌, ◌++◌, inl, arith, slice, memcpy}
use cube.ChannelBuf.{ChannelBuf, read, write}
use cube.ChannelBuf.Contents.{IsValid, contents}
use cube.ChannelBuf.Read.{Reads, read-Reads}
use cube.ChannelBuf.Write.{Writes, write-Writes}
use cube.ChannelBuf.Stream.{start, put, get, Stream-fifo}

abbrev zeros : List ℕ
zeros = 0 ∷ 0 ∷ 0 ∷ 0 ∷ 0 ∷ 0 ∷ 0 ∷ 0 ∷ 0 ∷ 0 ∷ 0 ∷ 0 ∷ 0 ∷ []

abbrev fresh : ChannelBuf
fresh = record { bufsize = 5; offset = 8; last_read_tail = 0; last_write_tail = 0; block = zeros }

-- 8, 9 up to the end, then 7.
abbrev wrapped : ChannelBuf
wrapped = record {
  bufsize = 5;
  offset = 8;
  last_read_tail = 3;
  last_write_tail = 1;
  block = 0 ∷ 0 ∷ 0 ∷ 0 ∷ 0 ∷ 0 ∷ 0 ∷ 0 ∷ 7 ∷ 0 ∷ 0 ∷ 8 ∷ 9 ∷ [];
}

fresh-IsValid : IsValid fresh
fresh-IsValid = omega arith

wrapped-IsValid : IsValid wrapped
wrapped-IsValid = omega arith

abbrev wishes : List ℕ
wishes = 1 ∷ 2 ∷ 3 ∷ 4 ∷ 5 ∷ 6 ∷ []

contents-wrapped : contents wrapped ≡ 8 ∷ 9 ∷ 7 ∷ []
unfolding slice
contents-wrapped = refl

write-wrapped : (write wrapped wishes 3).0 ≡ 1
unfolding write
write-wrapped = refl

read-wrapped : (read wrapped zeros 3).1 ≡ 8 ∷ 9 ∷ 7 ∷ 0 ∷ 0 ∷ 0 ∷ 0 ∷ 0 ∷ 0 ∷ 0 ∷ 0 ∷ 0 ∷ 0 ∷ []
unfolding read memcpy
read-wrapped = refl

read-Reads_example : Reads wrapped 2 (read wrapped zeros 2)
read-Reads_example = read-Reads wrapped zeros 2 wrapped-IsValid (omega arith)

write-Writes_example : Writes wrapped wishes 2 (write wrapped wishes 2)
write-Writes_example = write-Writes wrapped wishes 2 wrapped-IsValid (inl (omega arith))

Stream-fifo_example :
    IsValid (read (write wrapped wishes 2).1 zeros 2).2
    × (contents wrapped ++ slice wishes 0 (write wrapped wishes 2).0
        ≡ slice
            (read (write wrapped wishes 2).1 zeros 2).1
            0
            (read (write wrapped wishes 2).1 zeros 2).0
          ++ contents (read (write wrapped wishes 2).1 zeros 2).2)
Stream-fifo_example =
    Stream-fifo wrapped-IsValid (get zeros 2 (omega arith) (put wishes 2 (inl (omega arith)) start))
