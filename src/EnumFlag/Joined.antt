-- ===== src/EnumFlag/Joined.antt =====
-- The names of flags joined by bars, and how they are taken apart.
use cube.Prelude.{
  ℕ, ◌+◌, ◌<◌, ◌≡◌, ◌≢◌, refl, sym, ◌∙◌, bit_and, bit_or, Bool, true, false, Bool-cases, inl, inr,
  some, List, [], ◌∷◌, ◌++◌, leb, ◌==◌, arith, if◌then◌else◌, All, length, length-append, get_or,
  append_assoc, append-nil,
}
use cube.EnumFlag.{Name2Value, NameList, flag_names, value_of, FlagRead, flags, room, flag_loop}

-- A name of a flag: some characters, fewer than `temp_string` has, none of them a bar.
abbrev pub IsFlagChar : ℕ → Type 0
IsFlagChar c = (c ≢ 0) × (c ≢ b'|')

abbrev pub IsFlagName : List ℕ → Type 0
IsFlagName name = All IsFlagChar name × (0 < length name) × (length name < room)

-- The names of the flags of a value, with a bar in front of all but the first.
unfoldable pub joined : Bool → List Name2Value → ℕ → List ℕ
joined first [] v = []
joined first (e ∷ elems) v =
    if bit_and e.value v == 0
    then joined first elems v
    else (if first then [] else b'|' ∷ []) ++ (e.name ++ joined false elems v)

-- The values of these flags together.
unfoldable pub selected : List Name2Value → ℕ → ℕ → ℕ
selected [] v acc = acc
selected (e ∷ elems) v acc =
    if bit_and e.value v == 0 then selected elems v acc else selected elems v (bit_or acc e.value)

abbrev pub AllNames : List Name2Value → Type 0
AllNames [] = Unit
AllNames (e ∷ elems) = IsFlagName e.name × AllNames elems

-- What `flag_get_text_value` writes behind a text, and from the start on.
flag_names-more :
    (elems : List Name2Value) (v : ℕ) (text : List ℕ)
    → 0 < length text
    → flag_names elems v text ≡ text ++ joined false elems v
unfolding flag_names joined
flag_names-more [] v text p = sym (append-nil text)
flag_names-more (e ∷ elems) v text p = elim (Bool-cases (bit_and e.value v == 0)) [
  | inl out ↦ rw out (flag_names-more elems v text p)
  | inr chosen ↦
      let begun : (length text == 0) ≡ false = ground arith in
      rw (chosen, begun)
        (flag_names-more elems v ((text ++ b'|' ∷ []) ++ e.name) (
            omega (arith, length-append (text ++ b'|' ∷ []) e.name, length-append text (b'|' ∷ [])))
          ∙ append_assoc (text ++ b'|' ∷ []) e.name (joined false elems v)
          ∙ append_assoc text (b'|' ∷ []) (e.name ++ joined false elems v))
]

pub flag_names-joined :
    (elems : List Name2Value) (v : ℕ) → AllNames elems → flag_names elems v [] ≡ joined true elems v
unfolding flag_names joined
flag_names-joined [] v h = refl
flag_names-joined (e ∷ elems) v h = elim (Bool-cases (bit_and e.value v == 0)) [
  | inl out ↦ rw out (flag_names-joined elems v h.1)
  | inr chosen ↦ rw chosen (flag_names-more elems v e.name h.0.1)
]

-- What may follow a name.
pub data AtBar : List ℕ → Type 0 where
  no_more : AtBar []
  bar : {text : List ℕ} → AtBar (b'|' ∷ text)

-- A character of a name that is not its last one, and the last one.
flag_loop-more :
    (l : NameList) (c : ℕ) (text temp : List ℕ) (v : ℕ)
    → IsFlagChar c
    → length temp < room
    → IsFlagChar (get_or text 0 0)
    → flag_loop l (c ∷ text) temp v ≡ flag_loop l text (temp ++ c ∷ []) v
unfolding flag_loop
flag_loop-more l c text temp v a h n =
    let no_bar : (c == b'|') ≡ false = ground arith in
    let fits : leb room (length temp) ≡ false = ground arith in
    let next_char : (get_or text 0 0 == b'|') ≡ false = ground arith in
    let not_end : (get_or text 0 0 == 0) ≡ false = ground arith in
    rw (no_bar, fits, next_char, not_end) refl

flag_loop-last :
    (l : NameList) (c : ℕ) (text temp : List ℕ) (v w : ℕ)
    → IsFlagChar c
    → length temp + 1 < room
    → AtBar text
    → value_of l.elemlist (temp ++ c ∷ []) ≡ some w
    → flag_loop l (c ∷ text) temp v ≡ flag_loop l text [] (bit_or v w)
unfolding flag_loop
flag_loop-last l c [] temp v w a h no_more e =
    let no_bar : (c == b'|') ≡ false = ground arith in
    let fits : leb room (length temp) ≡ false = ground arith in
    let fits_end : leb room (length temp + 1) ≡ false = ground arith in
    rw (no_bar, fits, fits_end, e) refl
flag_loop-last l c (_ ∷ text) temp v w a h bar e =
    let no_bar : (c == b'|') ≡ false = ground arith in
    let fits : leb room (length temp) ≡ false = ground arith in
    let fits_end : leb room (length temp + 1) ≡ false = ground arith in
    rw (no_bar, fits, fits_end, e) refl

flag_loop-name :
    (l : NameList) (s temp rest : List ℕ) (v w : ℕ)
    → All IsFlagChar s
    → 0 < length s
    → length temp + length s < room
    → AtBar rest
    → value_of l.elemlist (temp ++ s) ≡ some w
    → flag_loop l (s ++ rest) temp v ≡ flag_loop l rest [] (bit_or v w)
flag_loop-name l [] temp rest v w a p h r e = absurd (omega arith)
flag_loop-name l (c ∷ []) temp rest v w a p h r e =
    flag_loop-last l c rest temp v w a.0 (omega arith) r e
flag_loop-name l (c ∷ d ∷ s) temp rest v w a p h r e =
    flag_loop-more l c (d ∷ s ++ rest) temp v a.0 (omega arith) a.1.0
    ∙ flag_loop-name l (d ∷ s) (temp ++ c ∷ []) rest v w a.1 (omega arith)
        (omega (arith, length-append temp (c ∷ []))) r (rw (append_assoc temp (c ∷ []) (d ∷ s)) e)

joined-AtBar : (elems : List Name2Value) (v : ℕ) → AtBar (joined false elems v)
unfolding joined
joined-AtBar [] v = no_more
joined-AtBar (e ∷ elems) v = elim (Bool-cases (bit_and e.value v == 0)) [
  | inl out ↦ rw out (joined-AtBar elems v)
  | inr chosen ↦ rw chosen bar
]

-- Each name of a list stands for its value in the whole list.
abbrev pub AllFound : List Name2Value → List Name2Value → Type 0
AllFound all [] = Unit
AllFound all (e ∷ elems) = (value_of all e.name ≡ some e.value) × AllFound all elems

flag_loop-bar :
    (l : NameList) (text : List ℕ) (v : ℕ) → flag_loop l (b'|' ∷ text) [] v ≡ flag_loop l text [] v
unfolding flag_loop
flag_loop-bar l text v = refl

flag_loop-end : (l : NameList) (v : ℕ) → flag_loop l [] [] v ≡ flags v
unfolding flag_loop
flag_loop-end l v = refl

-- The names are read as their values.
pub flag_loop-joined :
    (l : NameList) (elems : List Name2Value) (first : Bool) (v acc : ℕ)
    → AllNames elems
    → AllFound l.elemlist elems
    → flag_loop l (joined first elems v) [] acc ≡ flags (selected elems v acc)
unfolding joined selected
flag_loop-joined l [] first v acc h f = flag_loop-end l acc
flag_loop-joined l (e ∷ elems) first v acc h f = elim (Bool-cases (bit_and e.value v == 0)) [
  | inl out ↦ rw out (flag_loop-joined l elems first v acc h.1 f.1)
  | inr chosen ↦
      rw chosen
        (past_bar first (name ∙ flag_loop-joined l elems false v (bit_or acc e.value) h.1 f.1))
]
  where
    name :
        flag_loop l (e.name ++ joined false elems v) [] acc
        ≡ flag_loop l (joined false elems v) [] (bit_or acc e.value)
    name =
        flag_loop-name l e.name [] (joined false elems v) acc e.value h.0.0 h.0.1
          (omega (arith, h.0.2)) (joined-AtBar elems v) f.0

    past_bar :
        (first : Bool) {r : FlagRead}
        → flag_loop l (e.name ++ joined false elems v) [] acc ≡ r
        → flag_loop l ((if first then [] else b'|' ∷ []) ++ (e.name ++ joined false elems v)) [] acc
          ≡ r
    past_bar true p = p
    past_bar false p = flag_loop-bar l (e.name ++ joined false elems v) acc ∙ p
