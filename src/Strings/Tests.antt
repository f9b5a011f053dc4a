-- ===== src/Strings/Tests.antt =====
-- Short strings, and the theorems at them.
use cube.Prelude.{ℕ, ◌≡◌, refl, List, [], ◌∷◌, pos, arith}
use cube.Strings.{strncat, end_of_text, append_at_most, strcmp, strncpy}
use cube.Strings.Copy.{text}
use cube.Strings.Field.{
  getfiledfromstr, field_from, field_loop, field_of, spaces, getfiledfromstr_lem,
}

abbrev room : List ℕ
room = b'c' ∷ b'u' ∷ 0 ∷ 7 ∷ 7 ∷ 7 ∷ 7 ∷ 7 ∷ []

abbrev word : List ℕ
word = b'b' ∷ b'e' ∷ 0 ∷ []

strcmp-room : strcmp room word ≡ pos 1
unfolding strcmp
strcmp-room = refl

strncpy-full : strncpy room word 2 ≡ b'b' ∷ b'e' ∷ 0 ∷ 7 ∷ 7 ∷ 7 ∷ 7 ∷ 7 ∷ []
unfolding strncpy
strncpy-full = refl

strncat-full : strncat room word 4 ≡ b'c' ∷ b'u' ∷ b'b' ∷ 7 ∷ 7 ∷ 7 ∷ 7 ∷ 7 ∷ []
unfolding strncat end_of_text append_at_most
strncat-full = refl

strncat-short : strncat room word 2 ≡ room
unfolding strncat end_of_text append_at_most
strncat-short = refl

abbrev line : List ℕ
line = b' ' ∷ b' ' ∷ b'o' ∷ b'n' ∷ b':' ∷ b'x' ∷ 0 ∷ []

getfiledfromstr-line :
    (getfiledfromstr room line b':' 4 ≡ (b'o' ∷ b'n' ∷ 0 ∷ 7 ∷ 7 ∷ 7 ∷ 7 ∷ 7 ∷ [], 4))
    × (getfiledfromstr room line b':' 2 ≡ (0 ∷ b'n' ∷ 0 ∷ 7 ∷ 7 ∷ 7 ∷ 7 ∷ 7 ∷ [], 4))
    × (getfiledfromstr room (b' ' ∷ 0 ∷ []) b':' 2 ≡ (room, 0))
unfolding getfiledfromstr field_from field_loop
getfiledfromstr-line = (refl, refl, refl)

getfiledfromstr_lem_example :
    let r = getfiledfromstr room (spaces 2 (b'o' ∷ b'n' ∷ b':' ∷ b'x' ∷ 0 ∷ [])) b':' 4 in
    (text r.0 ≡ b'o' ∷ b'n' ∷ []) × (r.1 ≡ 4)
unfolding field_of
getfiledfromstr_lem_example =
    getfiledfromstr_lem room 2 b'o' (b'n' ∷ b':' ∷ b'x' ∷ 0 ∷ []) b':' 4 (omega arith) (omega arith)
      (omega arith)
