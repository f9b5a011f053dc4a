-- ===== src/Message/Announced.antt =====
-- The expands in the data of a message: what message_output_blob of cubelib/message/message.c writes
-- for them, and how message_read_data cuts them out.
use cube.Prelude.{
  ℕ, zero, suc, ◌+◌, ◌*◌, ◌/◌, ◌%◌, ◌^◌, ◌≤◌, ◌≡◌, refl, sym, ap, ap₂, subst, ◌∙◌, Bool, true,
  false, ltb, if◌then◌else◌, Option, none, some, List, [], ◌∷◌, ◌++◌, map, ℤ, pos, negsuc, einval,
  length, length-append, drop, take-length_append, drop-length_append, All, arith,
}
use cube.EnumFlag.{load, store}
use cube.EnumFlag.RoundTrip.{load-store}
use cube.Message.{joined, MsgExpand, Site, StructOps}
use cube.Message.Output.{
  bufsize, Sizes, behind, Encoded, encoded, check_status, error, join_expand, encode_expand,
  size_of_expand,
}
use cube.Message.Output.Copied.{Each}
use cube.Message.Output.Loops.{ExpandIs, given, made}
use cube.Message.Input.{cut_expand, cut_expands}

-- The bytes of an expand, which begin with the size that they announce.
pub record IsExpand (b : List ℕ) : Type 0 where
  pub announced : size_of_expand b ≡ some (length b)
  pub has_int : 4 ≤ length b

load-append : (n : ℕ) (b rest : List ℕ) → n ≤ length b → load n (b ++ rest) ≡ load n b
unfolding load
load-append zero b rest h = refl
load-append (suc n) [] rest h = absurd (omega arith)
load-append (suc n) (x ∷ b) rest h = ap (λ k. x + 256 * k) (load-append n b rest (omega arith))

size_of_expand-append :
    (b rest : List ℕ) → IsExpand b → size_of_expand (b ++ rest) ≡ some (length b)
unfolding size_of_expand
size_of_expand-append b rest x =
    ap (λ k. if ltb ((k + 12) % 2 ^ 32) (2 ^ 31) then some ((k + 12) % 2 ^ 32) else none)
      (load-append 4 b rest x.has_int)
    ∙ x.announced

-- The sites that message_read_data makes for expands.
pub fresh : {S : Type 0} → List ℕ → Site (MsgExpand S)
fresh b = record { bytes = some b; struct = none; size = length b }

length-store : (n v : ℕ) (xs : List ℕ) → length (store n v xs) ≡ length xs
unfolding store
length-store zero v xs = refl
length-store (suc n) v [] = refl
length-store (suc n) v (x ∷ xs) = ap suc (length-store n (v / 256) xs)

store-IsExpand :
    (front bytes : List ℕ)
    → length front ≡ 12
    → length front + length bytes ≤ bufsize
    → IsExpand (store 4 (length bytes) (front ++ bytes))
unfolding size_of_expand
store-IsExpand front bytes e h =
    let whole : List ℕ = store 4 (length bytes) (front ++ bytes) in
    let size : length whole ≡ 12 + length bytes =
      length-store 4 (length bytes) (front ++ bytes) ∙ length-append front bytes ∙ omega arith in
    let word : load 4 whole ≡ length bytes =
      load-store 4 (length bytes) (front ++ bytes) (omega (arith, length-append front bytes))
        (omega arith) in
    let sum : (load 4 whole + 12) % 2 ^ 32 ≡ length whole = omega arith in
    let small : ltb (length whole) (2 ^ 31) ≡ true = ground arith in
    record { announced = rw (sum, small) refl; has_int = omega arith }

join_expand-IsExpand :
    (x y : Encoded) (b : List ℕ)
    → ((front : List ℕ) → x ≡ encoded front → length front ≡ 12)
    → join_expand x y ≡ some (encoded b)
    → IsExpand b
unfolding join_expand
join_expand-IsExpand (error status) y b twelve e = cc
join_expand-IsExpand (encoded front) (error status) b twelve e = cc
join_expand-IsExpand (encoded front) (encoded bytes) b twelve e =
    by_room (ltb bufsize (length front + length bytes)) (λ h. ground arith) e
  where
    whole : List ℕ
    whole = store 4 (length bytes) (front ++ bytes)

    by_room :
        (over : Bool)
        → (over ≡ false → length front + length bytes ≤ bufsize)
        → (if over then none else some (encoded whole)) ≡ some (encoded b)
        → IsExpand b
    by_room true h p = cc
    by_room false h p =
        subst IsExpand (cc) (store-IsExpand front bytes (twelve front refl) (h refl))

check_status-encoded :
    (r : ℤ × List ℕ) (front : List ℕ) → check_status r ≡ encoded front → r.1 ≡ front
unfolding check_status
check_status-encoded (pos n, bytes) front e = cc
check_status-encoded (negsuc n, bytes) front e = cc

module _ {S : Type 0} where
  cut_expand_lem :
      (memory : Bool) (n : ℕ) (b more : List ℕ) (rest : ℕ → Sizes (MsgExpand S)) (size : Option ℕ)
      → memory ≡ true
      → size ≡ some (length b)
      → 4 ≤ length b
      → cut_expand memory n (b ++ more) rest size ≡ behind (fresh b) (rest (length b))
  unfolding cut_expand fresh
  cut_expand_lem memory n b more rest size m e h =
      let total : length (b ++ more) ≡ length b + length more = length-append b more in
      let inside : ltb (length (b ++ more)) (length b) ≡ false = ground (arith, total) in
      let number : ltb (length (b ++ more)) 4 ≡ false = ground (arith, total) in
      ap₂ (λ t u. cut_expand t n (b ++ more) rest u) m e
      ∙ rw (number, inside)
          (ap
            (λ l.
              behind (record { bytes = some l; struct = none; size = length b }) (rest (length b)))
            (take-length_append b more (length b) refl))

  pub cut_expands_lem :
      (memory : ℕ → Bool) (i : ℕ) (expands : List (List ℕ))
      → ((i : ℕ) → memory i ≡ true)
      → All IsExpand expands
      → cut_expands {S = S} memory i (length expands) (joined expands)
        ≡ some (pos 0, map fresh expands)
  unfolding cut_expands
  cut_expands_lem memory i [] all x = refl
  cut_expands_lem memory i (b ∷ expands) all x =
      let rest : ℕ → Sizes (MsgExpand S) =
        λ size. cut_expands memory (i + 1) (length expands) (drop size (b ++ joined expands)) in
      cut_expand_lem (memory i) (length expands) b (joined expands) rest
        (size_of_expand (b ++ joined expands)) (all i)
        (size_of_expand-append b (joined expands) x.0) x.0.has_int
      ∙ ap (λ l. behind (fresh b) (cut_expands memory (i + 1) (length expands) l))
          (drop-length_append b (joined expands) (length b) refl)
      ∙ ap (behind (fresh b)) (cut_expands_lem memory (i + 1) expands all x.1)

  -- The head of an expand is 12 bytes.
  abbrev pub HasHeads : StructOps S → Type 0
  HasHeads ops = (e : MsgExpand S) → length (ops.expand_head_2_blob e).1 ≡ 12

  encode_expand-IsExpand :
      (ops : StructOps S) (e : MsgExpand S) (b : List ℕ)
      → HasHeads ops
      → encode_expand ops e ≡ some (encoded b)
      → IsExpand b
  unfolding encode_expand
  encode_expand-IsExpand ops e b twelve p = by_template (ops.has_template (e.type, e.subtype)) p
    where
      front : Encoded
      front = check_status (ops.expand_head_2_blob e)

      body : Encoded
      body = check_status (ops.struct_2_blob (e.type, e.subtype) e.expand)

      by_template :
          (known : Bool)
          → (if known then join_expand front body else some (error einval)) ≡ some (encoded b)
          → IsExpand b
      by_template false p = cc
      by_template true p =
          join_expand-IsExpand front body b
            (λ f q.
              ap length (sym (check_status-encoded (ops.expand_head_2_blob e) f q)) ∙ twelve e)
            p

  pub All-IsExpand :
      (ops : StructOps S) (sites : List (Site (MsgExpand S))) (expands : List (List ℕ))
      → HasHeads ops
      → Each (ExpandIs ops) sites expands
      → All IsExpand expands
  All-IsExpand ops [] [] twelve r = tt
  All-IsExpand ops [] (b ∷ expands) twelve r = elim r [ ]
  All-IsExpand ops (s ∷ sites) [] twelve r = elim r [ ]
  All-IsExpand ops (s ∷ sites) (b ∷ expands) twelve (given p q c l, r) =
      (record { announced = c; has_int = l }, All-IsExpand ops sites expands twelve r)
  All-IsExpand ops (s ∷ sites) (b ∷ expands) twelve (made e p c, r) =
      (encode_expand-IsExpand ops e b twelve c, All-IsExpand ops sites expands twelve r)
