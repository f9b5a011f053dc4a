-- ===== src/Message/Input/Chunks.antt =====
-- The data of a message in pieces: message_read_data of cubelib/message/message.c.
use cube.Prelude.{
  ℕ, ◌+◌, ◌-◌, ◌≤◌, ◌<◌, ◌≡◌, refl, sym, ap, ap₂, ◌∙◌, Bool, true, false, ◌||◌, ◌==◌, if◌then◌else◌,
  Option, none, some, List, [], ◌∷◌, ◌++◌, append_assoc, ℤ, pos, negsuc, length, length-append,
  memcpy, All, arith,
}
use cube.Message.{joined, MessageBox, MsgExpand, Site}
use cube.Message.Input.{InputMemory, total_size, message_read_data, with_sites, rebuilt, rebuild}
use cube.Message.Input.Pieces.{memcpy-append, Waits, advance, read_data-more, read_data-last}

module _ {S : Type 0} where
  -- The chunks, one call of `message_read_data` for each.
  pub feed : InputMemory → MessageBox S → List (List ℕ) → Option (MessageBox S)
  feed memory m [] = some m
  feed memory m (c ∷ cs) = elim (message_read_data memory m (some c) (pos (length c))) [
    | none ↦ none
    | some (status, m') ↦ feed memory m' cs
  ]

  abbrev pub message_of : Option (ℤ × MessageBox S) → Option (MessageBox S)
  message_of none = none
  message_of (some (status, m)) = some m

  message_of-rebuilt :
      (m : MessageBox S) (k n : ℕ) (r : Option (ℤ × List (Site (MsgExpand S)))) (b : Bool)
      → message_of (if b then rebuilt m k r else none)
        ≡ message_of (if b then rebuilt m n r else none)
  unfolding rebuilt
  message_of-rebuilt m k n r false = refl
  message_of-rebuilt m k n none true = refl
  message_of-rebuilt m k n (some (pos status, sites)) true = refl
  message_of-rebuilt m k n (some (negsuc status, sites)) true = refl

  -- The message does not depend on the status that is returned with it.
  pub message_of-rebuild :
      (memory : InputMemory) (m : MessageBox S) (contents : List ℕ) (k n : ℕ)
      → message_of (rebuild memory m contents k) ≡ message_of (rebuild memory m contents n)
  unfolding rebuild
  message_of-rebuild memory m contents k n =
      message_of-rebuilt (with_sites memory m contents) k n _
        (m.head.expand_num == 0 || memory.for_expands)

  rebuild-advance :
      (memory : InputMemory) (m : MessageBox S) (contents : List ℕ) (offset : ℕ) (c all : List ℕ)
      → rebuild memory (advance m contents offset c) all 0 ≡ rebuild memory m all 0
  unfolding rebuild advance
  rebuild-advance memory m contents offset c all = refl

  advance-Waits :
      (m : MessageBox S) (contents : List ℕ) (offset : ℕ) (c : List ℕ)
      → Waits m contents offset
      → Waits
          (advance m contents offset c)
          (memcpy contents offset c 0 (length c))
          (offset + length c)
  unfolding advance
  advance-Waits m contents offset c w = record { state = w.state; data_is = refl; offset_is = refl }

  total_size-advance :
      (m : MessageBox S) (contents : List ℕ) (offset : ℕ) (c : List ℕ)
      → total_size (advance m contents offset c).head ≡ total_size m.head
  unfolding advance
  total_size-advance m contents offset c = refl

  feed_step :
      (memory : InputMemory) (m m' : MessageBox S) (status : ℤ) (c : List ℕ) (cs : List (List ℕ))
      → message_read_data memory m (some c) (pos (length c)) ≡ some (status, m')
      → feed memory m (c ∷ cs) ≡ feed memory m' cs
  unfolding feed
  feed_step memory m m' status c cs e = rw (e, feed) refl

  feed_last :
      (memory : InputMemory) (m : MessageBox S) (c : List ℕ)
      → feed memory m (c ∷ []) ≡ message_of (message_read_data memory m (some c) (pos (length c)))
  unfolding feed
  feed_last memory m c = by_result (message_read_data memory m (some c) (pos (length c)))
    where
      by_result :
          (r : Option (ℤ × MessageBox S))
          → elim r as (λ r'. Option (MessageBox S)) [
            | none ↦ none
            | some (status, m') ↦ feed memory m' []
          ]
            ≡ message_of r
      by_result none = refl
      by_result (some (status, m')) = refl

  feed-rebuild :
      (memory : InputMemory) (front : List (List ℕ)) (m : MessageBox S) (contents : List ℕ)
      (offset : ℕ) (last : List ℕ)
      → Waits m contents offset
      → All (λ c. 0 < length c) front
      → 0 < length last
      → offset + length (joined front) < total_size m.head
      → total_size m.head ≤ offset + length (joined front ++ last)
      → feed memory m (front ++ last ∷ [])
        ≡ message_of (
            rebuild memory m
              (memcpy contents offset (joined front ++ last) 0 (total_size m.head - offset))
              0)
  feed-rebuild memory [] m contents offset last w h k less full =
      feed_last memory m last
      ∙ ap message_of (read_data-last memory m contents offset last w k full)
      ∙ message_of-rebuild memory m _ _ 0
  feed-rebuild memory (c ∷ front) m contents offset last w h k less full =
      let size : length (c ++ joined front) ≡ length c + length (joined front) =
        length-append c (joined front) in
      let sizes : length ((c ++ joined front) ++ last) ≡ length c + length (joined front ++ last) =
        omega (arith, length-append (c ++ joined front) last, length-append (joined front) last) in
      let total : ℕ = total_size m.head in
      let m' : MessageBox S = advance m contents offset c in
      let same : total_size m'.head ≡ total = total_size-advance m contents offset c in
      let data_then : List ℕ = memcpy contents offset c 0 (length c) in
      feed_step memory m m' (pos 0) c (front ++ last ∷ [])
        (read_data-more memory m contents offset c w h.0 (omega arith))
      ∙ feed-rebuild memory front m' data_then (offset + length c) last
          (advance-Waits m contents offset c w) h.1 k (omega arith) (omega arith)
      ∙ ap message_of (
          rebuild-advance memory m contents offset c _
          ∙ ap (λ l. rebuild memory m l 0)
              (ap
                  (λ t.
                    memcpy data_then (offset + length c) (joined front ++ last) 0
                      (t - (offset + length c)))
                  same
                ∙ memcpy-append contents offset c (joined front ++ last)
                    (total - (offset + length c))
                ∙ ap₂ (λ l n. memcpy contents offset l 0 n)
                    (sym (append_assoc c (joined front) last)) (omega arith)))

  -- Data that is read in pieces, none of them empty and only the last one completing it, makes the
  -- message that it makes in one piece: message_read_data of the pieces in turn leaves the same
  -- message, or goes out of the data with the same expand, as message_read_data of all of it at
  -- once.
  pub message_read_data-feed :
      (memory : InputMemory) (m : MessageBox S) (contents : List ℕ) (front : List (List ℕ))
      (last : List ℕ)
      → Waits m contents 0
      → All (λ c. 0 < length c) front
      → 0 < length last
      → length (joined front) < total_size m.head
      → total_size m.head ≤ length (joined front ++ last)
      → feed memory m (front ++ last ∷ [])
        ≡ message_of (
            message_read_data memory m
              (some (joined front ++ last))
              (pos (length (joined front ++ last))))
  message_read_data-feed memory m contents front last w h k less full =
      feed-rebuild memory front m contents 0 last w h k (omega arith) (omega arith)
      ∙ sym (
          feed-rebuild memory [] m contents 0 (joined front ++ last) w tt (omega arith)
            (omega arith) (omega arith))
      ∙ feed_last memory m (joined front ++ last)
