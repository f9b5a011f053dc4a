-- ===== src/Strings/Copy.antt =====
-- What the copies leave in their destination.
use cube.Prelude.{
  ℕ, zero, suc, ◌+◌, ◌≤◌, ◌<◌, ◌≡◌, ◌≢◌, refl, ◌∙◌, sym, List, [], ◌∷◌, ◌++◌, append_assoc, arith,
  ◌==◌, if◌then◌else◌, inl, inr, Bool-cases, length, set, length-set, length-append, append-nil,
  min, get_or, get_or-set_ne, ◌⊎◌,
}
use cube.Strings.{strlen, strnlen, copy_text, strcpy, strcat, copy_at_most}

-- The characters of a string, up to its terminator.
abbrev pub text : List ℕ → List ℕ
text [] = []
text (c ∷ str) = if c == 0 then [] else c ∷ text str

pub length-text : (str : List ℕ) → length (text str) ≡ strlen str
unfolding strlen
length-text [] = refl
length-text (c ∷ str) = ground (arith, length-text str)

-- A string that starts with `front`, which has no terminator in it.
abbrev pub Starts : List ℕ → List ℕ → Type 0
Starts str [] = Unit
Starts [] (c ∷ front) = ⊥
Starts (d ∷ str) (c ∷ front) = (c ≡ d) × (c ≢ 0) × Starts str front

-- The store of a terminator behind a front ends the text there.
pub text-set_end :
    (str front : List ℕ) (i : ℕ)
    → Starts str front
    → i ≡ length front
    → i < length str
    → text (set str i 0) ≡ front
text-set_end [] front i s e h = absurd (omega arith)
text-set_end (d ∷ str) [] zero s e h = refl
text-set_end (d ∷ str) [] (suc i) s e h = absurd (omega arith)
text-set_end (d ∷ str) (c ∷ front) zero s e h = absurd (omega arith)
text-set_end (d ∷ str) (c ∷ front) (suc i) s e h =
    ground (arith, text-set_end str front i s.2 (omega arith) (omega arith))

pub Starts-set :
    (str front : List ℕ) (i c : ℕ)
    → Starts str front
    → i ≡ length front
    → i < length str
    → c ≢ 0
    → Starts (set str i c) (front ++ c ∷ [])
Starts-set [] front i c s e h nz = absurd (omega arith)
Starts-set (d ∷ str) [] zero c s e h nz = (refl, nz, tt)
Starts-set (d ∷ str) [] (suc i) c s e h nz = absurd (omega arith)
Starts-set (d ∷ str) (k ∷ front) zero c s e h nz = absurd (omega arith)
Starts-set (d ∷ str) (k ∷ front) (suc i) c s e h nz =
    (s.0, s.1, Starts-set str front i c s.2 (omega arith) (omega arith) nz)

text-copy_text :
    (dest front : List ℕ) (i : ℕ) (src : List ℕ)
    → Starts dest front
    → i ≡ length front
    → i + strlen src < length dest
    → text (copy_text dest i src) ≡ front ++ text src
unfolding copy_text strlen
text-copy_text dest front i [] s e h =
    text-set_end dest front i s e (omega arith) ∙ sym (append-nil front)
text-copy_text dest front i (c ∷ src) s e h = elim (Bool-cases (c == 0)) [
  | inl end ↦ rw end (text-set_end dest front i s e (omega arith) ∙ sym (append-nil front))
  | inr more ↦ rw more (
      text-copy_text (set dest i c) (front ++ c ∷ []) (i + 1) src
        (Starts-set dest front i c s e (omega arith) (ground arith))
        (omega (arith, length-append front (c ∷ []))) (ground (arith, length-set dest i c))
      ∙ append_assoc front (c ∷ []) (text src))
]

-- `Strcpy` into an array with room for the text and its terminator copies the text.
pub text-strcpy : (dest src : List ℕ) → strlen src < length dest → text (strcpy dest src) ≡ text src
unfolding strcpy
text-strcpy dest src h = text-copy_text dest [] 0 src tt refl (omega arith)

Starts-text : (str : List ℕ) → Starts str (text str)
Starts-text [] = tt
Starts-text (c ∷ str) = elim (Bool-cases (c == 0)) [
  | inl end ↦ rw end tt
  | inr more ↦ rw more (refl, ground arith, Starts-text str)
]

-- `Strcat` into an array with room for both texts and a terminator puts the one behind the other.
pub text-strcat :
    (dest src : List ℕ)
    → strlen dest + strlen src < length dest
    → text (strcat dest src) ≡ text dest ++ text src
unfolding strcat
text-strcat dest src h =
    text-copy_text dest (text dest) (strlen dest) src (Starts-text dest) (sym (length-text dest)) h

-- `Strnlen` is the length of the text, but at most the count.
pub strnlen_lem : (str : List ℕ) (n : ℕ) → strnlen str n ≡ min n (strlen str)
unfolding strnlen strlen
strnlen_lem str zero = omega arith
strnlen_lem [] (suc n) = omega arith
strnlen_lem (c ∷ str) (suc n) = ground (arith, strnlen_lem str n)

-- Past the end of the copied characters `Strncpy` leaves the array as it was, but for the
-- terminator.
pub get_or-copy_at_most :
    (dest : List ℕ) (i : ℕ) (src : List ℕ) (n j d : ℕ)
    → (j < i) ⊎ (i + n ≤ j)
    → get_or (copy_at_most dest i src n) j d ≡ get_or dest j d
unfolding copy_at_most
get_or-copy_at_most dest i src zero j d h = refl
get_or-copy_at_most dest i [] (suc n) j d h = get_or-set_ne dest i j 0 d (omega arith)
get_or-copy_at_most dest i (c ∷ src) (suc n) j d h = ground (
  arith,
  get_or-set_ne dest i j 0 d,
  get_or-set_ne dest i j c d,
  get_or-copy_at_most (set dest i c) (i + 1) src n j d,
)
