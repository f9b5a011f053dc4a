-- ===== src/Message/Records.antt =====
-- Records that message_add_record_blob of cubelib/message/message.c adds, and those that it cannot.
use cube.Prelude.{
  ℕ, zero, suc, ◌+◌, ◌≡◌, refl, ap, ap₂, ◌∙◌, true, false, ◌==◌, ltb, if◌then◌else◌, none, some,
  List, [], ◌∷◌, ◌++◌, ℤ, pos, length, length-append, get_or, set, take, take_all, All, arith,
}
use cube.MessageQueue.{is_negative}
use cube.Message.{msg_box_add, MessageBox, Site, null_site}
use cube.Message.Sites.{
  Memory, is_free, free_site, add_record_site, room_for_record, put_record_blob, record_blob_at,
  message_add_record_blob,
}
use cube.Message.Expands.Found.{set-append, get_or-append}

abbrev pub IsTaken : {A : Type 0} → Site A → Type 0
IsTaken s = is_free s ≡ false

free_site-full :
    {A : Type 0} (i n : ℕ) (sites : List (Site A))
    → n ≡ length sites
    → All IsTaken sites
    → free_site i n sites ≡ some (i + length sites)
unfolding free_site
free_site-full i zero [] e t = ap some (omega arith)
free_site-full i zero (s ∷ sites) e t = absurd (omega arith)
free_site-full i (suc n) [] e t = absurd (omega arith)
free_site-full i (suc n) (s ∷ sites) e t =
    ap (λ b. if b then some i else free_site (i + 1) n sites) t.0
    ∙ free_site-full (i + 1) n sites (omega arith) t.1
    ∙ ap some (omega arith)

free_site-first :
    {A : Type 0} (i n : ℕ) (front : List (Site A)) (s : Site A) (back : List (Site A))
    → n ≡ length (front ++ s ∷ back)
    → All IsTaken front
    → is_free s ≡ true
    → free_site i n (front ++ s ∷ back) ≡ some (i + length front)
unfolding free_site
free_site-first i zero [] s back e t f = absurd (omega arith)
free_site-first i zero (x ∷ front) s back e t f = absurd (omega arith)
free_site-first i (suc n) [] s back e t f =
    ap (λ b. if b then some i else free_site (i + 1) n back) f ∙ ap some (omega arith)
free_site-first i (suc n) (x ∷ front) s back e t f =
    ap (λ b. if b then some i else free_site (i + 1) n (front ++ s ∷ back)) t.0
    ∙ free_site-first (i + 1) n front s back (omega arith) t.1 f
    ∙ ap some (omega arith)

module _ {S : Type 0} (m : MessageBox S) (size : ℕ) (blob : List ℕ) where
  -- The message with one more record of these bytes.
  pub with_record : MessageBox S
  with_record = record m {
    records =
        m.records ++ record { bytes = some (take size blob); struct = none; size = size } ∷ [];
    head = record (m.head) {
      record_num = m.head.record_num + 1;
      record_size = m.head.record_size + size;
    };
    box_state = msg_box_add;
  }

module _ {S : Type 0} (memory : Memory) (ret : ℤ) (m : MessageBox S) (size : ℕ)
    (blob : List ℕ) where
  with_null : MessageBox S
  with_null = record m {
    records = m.records ++ null_site ∷ [];
    head = record (m.head) { record_num = m.head.record_num + 1 };
  }

  room-full :
      m.head.record_num ≡ length m.records
      → memory.sites ≡ true
      → room_for_record memory.sites ret m m.head.record_num ≡ (pos 0, with_null)
  unfolding room_for_record with_null
  room-full n for_sites =
      let test : (m.head.record_num == m.head.record_num) ≡ true = ground arith in
      ap₂ (λ b c. if b then add_record_site c m 1 else (ret, m)) test for_sites
      ∙ ap
          (λ l. (
            pos 0,
            record m {
              records = l ++ null_site ∷ [];
              head = record (m.head) { record_num = m.head.record_num + 1 };
            },
          ))
          (take_all m.head.record_num m.records (omega arith))

  put-full :
      m.head.record_num ≡ length m.records
      → put_record_blob true (pos 0) with_null m.head.record_num size (take size blob)
        ≡ some (pos 0, with_record m size blob)
  unfolding put_record_blob with_null with_record
  put-full n =
      let bytes : List ℕ = take size blob in
      let sites : List (Site S) = m.records ++ null_site ∷ [] in
      let new : Site S → Site S = λ s. record s { bytes = some bytes; size = size } in
      let box : List (Site S) → MessageBox S = λ l. record m {
        records = l;
        head = record (m.head) {
          record_num = m.head.record_num + 1;
          record_size = m.head.record_size + size;
        };
        box_state = msg_box_add;
      } in
      let inside : ltb m.head.record_num (length sites) ≡ true =
        ground (arith, length-append m.records (null_site {S = S} ∷ []), n) in
      ap
        (λ b.
          if b
          then some (
            pos 0,
            box (set sites m.head.record_num (new (get_or sites m.head.record_num null_site))),
          )
          else none)
        inside
      ∙ ap (λ i. some (pos 0, box (set sites i (new (get_or sites i null_site))))) n
      ∙ ap (λ s. some (pos 0, box (set sites (length m.records) (new s))))
          (get_or-append m.records null_site [] null_site)
      ∙ ap (λ l. some (pos 0, box l)) (set-append m.records null_site (new null_site))

  -- Where no site of the message is free and there is memory, message_add_record_blob returns 0 and
  -- puts a site with the first bytes of the blob behind the others: it counts the record and its
  -- size, and leaves all else but the box state as it was.
  pub message_add_record_blob-taken :
      m.head.record_num ≡ length m.records
      → All IsTaken m.records
      → memory.sites ≡ true
      → memory.copy ≡ true
      → message_add_record_blob memory ret m size (some blob)
        ≡ some (pos 0, with_record m size blob)
  unfolding message_add_record_blob
  message_add_record_blob-taken n t for_sites for_copy =
      let bytes : List ℕ = take size blob in
      ap (record_blob_at memory ret m size bytes) (
        free_site-full 0 m.head.record_num m.records n t
        ∙ ap some (let z : 0 + length m.records ≡ m.head.record_num = omega arith in z))
      ∙ ap₂
          (λ c (r : ℤ × MessageBox S).
            if is_negative r.0
            then some (r.0, r.1)
            else put_record_blob c r.0 r.1 m.head.record_num size bytes)
          for_copy (room-full n for_sites)
      ∙ put-full n

  -- Where a site is free, as those of a message that was read are, and there is memory,
  -- message_add_record_blob writes outside of the arrays: it looks for the free site, but stores at
  -- the index behind the last one.
  message_add_record_blob-free :
      (front back : List (Site S)) (s : Site S)
      → m.records ≡ front ++ s ∷ back
      → m.head.record_num ≡ length m.records
      → All IsTaken front
      → is_free s ≡ true
      → is_negative ret ≡ false
      → memory.copy ≡ true
      → message_add_record_blob memory ret m size (some blob) ≡ none
  unfolding message_add_record_blob room_for_record put_record_blob
  message_add_record_blob-free front back s e n t f r for_copy =
      let bytes : List ℕ = take size blob in
      let sites : List (Site S) = front ++ s ∷ back in
      let number : m.head.record_num ≡ length sites = n ∙ ap length e in
      let len : length sites ≡ suc (length front + length back) =
        omega (arith, length-append front (s ∷ back)) in
      let below : (length front == m.head.record_num) ≡ false = ground (arith, number, len) in
      let outside : ltb m.head.record_num (length m.records) ≡ false = ground (arith, n) in
      ap (record_blob_at memory ret m size bytes) (
        ap (free_site 0 m.head.record_num) e
        ∙ free_site-first 0 m.head.record_num front s back number t f
        ∙ ap some (let z : 0 + length front ≡ length front = omega arith in z))
      ∙ ap
          (λ b.
            let r : ℤ × MessageBox S = if b then add_record_site memory.sites m 1 else (ret, m) in
            if is_negative r.0
            then some (r.0, r.1)
            else put_record_blob memory.copy r.0 r.1 m.head.record_num size bytes)
          below
      ∙ ap₂
          (λ b c. if b then some (ret, m) else put_record_blob c ret m m.head.record_num size bytes)
          r for_copy
      ∙ rw outside refl
