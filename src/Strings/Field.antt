-- ===== src/Strings/Field.antt =====
-- `Getfiledfromstr` of cubelib/string/memfunc.c: the field of a line up to a separator.
use cube.Prelude.{
  ℕ, zero, suc, ◌+◌, ◌≤◌, ◌<◌, ◌≡◌, ◌≢◌, refl, ◌∙◌, sym, Bool, true, false, ◌||◌, List, [], ◌∷◌,
  ◌++◌, append_assoc, arith, ltb, ◌==◌, if◌then◌else◌, inl, inr, Bool-cases, length, set,
  length-set, length-append, append-nil, min,
}
use cube.Strings.Copy.{text, Starts, text-set_end, Starts-set}

abbrev pub maxnamelen : ℕ
maxnamelen = 257

-- `(str[i]==IFS) || (str[i]==0)`.
abbrev pub ends_field : ℕ → ℕ → Bool
ends_field ifs c = (c == ifs) || (c == 0)

-- The second loop, with `n` rounds left: the array with the field, and the index in the line.
unfoldable pub field_loop : List ℕ → ℕ → ℕ → ℕ → List ℕ → ℕ → List ℕ × ℕ
field_loop name ifs offset i str zero = (set name 0 0, i)
field_loop name ifs offset i [] (suc n) = (set name offset 0, i)
field_loop name ifs offset i (c ∷ str) (suc n) =
    let rest = field_loop (set name offset c) ifs (offset + 1) (i + 1) str n in
    if ends_field ifs c then (set name offset 0, i) else rest

-- The first loop, over the spaces, and what stands behind it.
unfoldable pub field_from : List ℕ → ℕ → ℕ → List ℕ → ℕ → List ℕ × ℕ
unfolding field_loop
field_from name ifs i [] limit = (name, 0)
field_from name ifs i (c ∷ str) limit =
    let rest = field_from name ifs (i + 1) str limit in
    if c == b' '
    then rest
    else if c == 0
    then (name, 0)
    else field_loop name ifs 0 i (c ∷ str) limit

-- `limit`, for a `maxsize` that is not negative.
abbrev pub limit_of : ℕ → ℕ
limit_of maxsize = if maxsize == 0 then maxnamelen else maxsize

-- `Getfiledfromstr`: the array `name` afterwards, and the result.
unfoldable pub getfiledfromstr : List ℕ → List ℕ → ℕ → ℕ → List ℕ × ℕ
unfolding field_from
getfiledfromstr name str ifs maxsize = field_from name ifs 0 str (limit_of maxsize)

-- The characters of a line before the separator.
unfoldable pub field_of : ℕ → List ℕ → List ℕ
field_of ifs [] = []
field_of ifs (c ∷ str) = if ends_field ifs c then [] else c ∷ field_of ifs str

abbrev pub spaces : ℕ → List ℕ → List ℕ
spaces zero str = str
spaces (suc n) str = b' ' ∷ spaces n str

-- The field if it is shorter than `n`, with `front` before it.
abbrev pub fitting : ℕ → List ℕ → List ℕ → List ℕ
fitting n front field = if ltb (length field) n then front ++ field else []

abbrev Took : List ℕ × ℕ → ℕ → ℕ → List ℕ → List ℕ → Type 0
Took r i n front field = (text r.0 ≡ fitting n front field) × (r.1 ≡ i + min n (length field))

fitting-suc :
    (n c : ℕ) (front field : List ℕ)
    → fitting n (front ++ c ∷ []) field ≡ fitting (suc n) front (c ∷ field)
fitting-suc n c front field = elim (Bool-cases (ltb (length field) n)) [
  | inl short ↦
      let more : ltb (suc (length field)) (suc n) ≡ true = ground arith in
      rw (short, more) (append_assoc front (c ∷ []) field)
  | inr long ↦
      let more : ltb (suc (length field)) (suc n) ≡ false = ground arith in rw (long, more) refl
]

field_loop_lem :
    (name front : List ℕ) (ifs offset i : ℕ) (str : List ℕ) (n : ℕ)
    → Starts name front
    → offset ≡ length front
    → offset + n ≤ length name
    → 0 < length name
    → Took (field_loop name ifs offset i str n) i n front (field_of ifs str)
unfolding field_loop field_of
field_loop_lem name front ifs offset i str zero s e h k =
    let long : ltb (length (field_of ifs str)) 0 ≡ false = ground arith in
    (rw long (text-set_end name [] 0 tt refl k), omega arith)
field_loop_lem name front ifs offset i [] (suc n) s e h k =
    let short : ltb 0 (suc n) ≡ true = ground arith in
    rw short
      (text-set_end name front offset s e (omega arith) ∙ sym (append-nil front), omega arith)
field_loop_lem name front ifs offset i (c ∷ str) (suc n) s e h k =
    elim (Bool-cases (ends_field ifs c)) [
      | inl end ↦
          let short : ltb 0 (suc n) ≡ true = ground arith in
          rw (end, short)
            (text-set_end name front offset s e (omega arith) ∙ sym (append-nil front), omega arith)
      | inr more ↦
          let rest =
            field_loop_lem (set name offset c) (front ++ c ∷ []) ifs (offset + 1) (i + 1) str n
              (Starts-set name front offset c s e (omega arith) (ground arith))
              (omega (arith, length-append front (c ∷ [])))
              (omega (arith, length-set name offset c)) (omega (arith, length-set name offset c)) in
          rw more (rest.0 ∙ fitting-suc n c front (field_of ifs str), omega (arith, rest.1))
    ]

field_from_lem :
    (name : List ℕ) (ifs i blanks c : ℕ) (str : List ℕ) (n : ℕ)
    → c ≢ b' '
    → c ≢ 0
    → n ≤ length name
    → 0 < length name
    → Took
        (field_from name ifs i (spaces blanks (c ∷ str)) n)
        (i + blanks)
        n
        []
        (field_of ifs (c ∷ str))
unfolding field_from
field_from_lem name ifs i zero c str n nb nz h k =
    let other : (c == b' ') ≡ false = ground arith in
    let more : (c == 0) ≡ false = ground arith in
    let taken = field_loop_lem name [] ifs 0 i (c ∷ str) n tt refl (omega arith) k in
    rw (other, more) (taken.0, omega (arith, taken.1))
field_from_lem name ifs i (suc blanks) c str n nb nz h k =
    let rest = field_from_lem name ifs (i + 1) blanks c str n nb nz h k in
    (rest.0, omega (arith, rest.1))

-- From a line with a text behind its spaces, Getfiledfromstr takes the characters before the
-- separator, if the array has room for the limit: the text of the array is the field if it is
-- shorter than the limit, and empty otherwise, and the result is the index behind the characters
-- that were read, at most the limit of them behind the spaces.
pub getfiledfromstr_lem :
    (name : List ℕ) (blanks c : ℕ) (str : List ℕ) (ifs maxsize : ℕ)
    → c ≢ b' '
    → c ≢ 0
    → limit_of maxsize ≤ length name
    → let r = getfiledfromstr name (spaces blanks (c ∷ str)) ifs maxsize in
      let field = field_of ifs (c ∷ str) in
      (text r.0 ≡ (if ltb (length field) (limit_of maxsize) then field else []))
      × (r.1 ≡ blanks + min (limit_of maxsize) (length field))
unfolding getfiledfromstr
getfiledfromstr_lem name blanks c str ifs maxsize nb nz h =
    let some_room : 0 < limit_of maxsize = ground arith in
    let taken = field_from_lem name ifs 0 blanks c str (limit_of maxsize) nb nz h (omega arith) in
    (taken.0, omega (arith, taken.1))
