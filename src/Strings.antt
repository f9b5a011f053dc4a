-- ===== src/Strings.antt =====
-- The string functions of cubelib/string/memfunc.c. A `char *` is the list of the bytes from there
-- to the end of its array; a read past the end gives 0, so a text without a terminator ends there.
pub mod Copy
pub mod Compare
pub mod Same
pub mod Bounded
pub mod Field
pub mod Whole
mod Tests
use cube.Prelude.{
  Option, none, some, ◌^◌, ℕ, zero, suc, ◌+◌, ◌-◌, ◌||◌, List, [], ◌∷◌, ℤ, pos, negsuc, leb, ltb,
  ◌==◌, if◌then◌else◌, get_or, set,
}

-- `Strlen`.
unfoldable pub strlen : List ℕ → ℕ
strlen [] = 0
strlen (c ∷ str) = if c == 0 then 0 else suc (strlen str)

-- `Strnlen`.
unfoldable pub strnlen : List ℕ → ℕ → ℕ
strnlen str zero = 0
strnlen [] (suc n) = 0
strnlen (c ∷ str) (suc n) = if c == 0 then 0 else suc (strnlen str n)

-- The loop of `Strcpy` and the second one of `Strcat`: `src` with its terminator goes to `dest`
-- from `i` on.
copy_text : List ℕ → ℕ → List ℕ → List ℕ
copy_text dest i [] = set dest i 0
copy_text dest i (c ∷ src) =
    let rest = copy_text (set dest i c) (i + 1) src in if c == 0 then set dest i 0 else rest

-- `Strcpy`.
pub strcpy : List ℕ → List ℕ → List ℕ
unfolding copy_text
strcpy dest src = copy_text dest 0 src

-- `Strcat`.
pub strcat : List ℕ → List ℕ → List ℕ
unfolding copy_text strlen
strcat dest src = copy_text dest (strlen dest) src

-- The first loop of `Strncat`: the index of the terminator and the count that is left behind it, or
-- `none` where the count runs out first.
end_of_text : List ℕ → ℕ → ℕ → Option (ℕ × ℕ)
end_of_text dest i zero = none
end_of_text dest i (suc n) =
    let rest = end_of_text dest (i + 1) n in if get_or dest i 0 == 0 then some (i, n) else rest

-- The second loop of `Strncat`.
append_at_most : List ℕ → ℕ → List ℕ → ℕ → List ℕ
append_at_most dest i src zero = dest
append_at_most dest i [] (suc n) = set dest i 0
append_at_most dest i (c ∷ src) (suc n) =
    let rest = append_at_most (set dest i c) (i + 1) src n in if c == 0 then set dest i 0 else rest

-- `Strncat`, for a count that is not negative.
pub strncat : List ℕ → List ℕ → ℕ → List ℕ
unfolding end_of_text append_at_most
strncat dest src n = elim (end_of_text dest 0 n) [
  | none ↦ dest
  | some (i, left) ↦ append_at_most dest i src left
]

-- The loop of `Strncpy` and the store behind it: a terminator is written only where a count is
-- left at the end of `src`.
pub copy_at_most : List ℕ → ℕ → List ℕ → ℕ → List ℕ
copy_at_most dest i src zero = dest
copy_at_most dest i [] (suc n) = set dest i 0
copy_at_most dest i (c ∷ src) (suc n) =
    let rest = copy_at_most (set dest i c) (i + 1) src n in if c == 0 then set dest i 0 else rest

-- `Strncpy`.
pub strncpy : List ℕ → List ℕ → ℕ → List ℕ
unfolding copy_at_most
strncpy dest src n = copy_at_most dest 0 src n

-- The difference of two characters, as an `int`.
abbrev pub diff : ℕ → ℕ → ℤ
diff a b = if leb b a then pos (a - b) else negsuc (b - a - 1)

-- `Strcmp`.
unfoldable pub strcmp : List ℕ → List ℕ → ℤ
strcmp [] [] = pos 0
strcmp [] (b ∷ s₂) = diff 0 b
strcmp (a ∷ s₁) [] = diff a 0
strcmp (a ∷ s₁) (b ∷ s₂) =
    let rest = strcmp s₁ s₂ in if a == b then (if a == 0 then pos 0 else rest) else diff a b

-- `Strncmp`, for a count that is not negative.
unfoldable pub strncmp : List ℕ → List ℕ → ℕ → ℤ
strncmp s₁ s₂ zero = pos 0
strncmp [] s₂ (suc n) = diff 0 (get_or s₂ 0 0)
strncmp (a ∷ s₁) [] (suc n) = diff a 0
strncmp (a ∷ s₁) (b ∷ s₂) (suc n) =
    let rest = strncmp s₁ s₂ n in
    if n == 0 then diff a b else if a == 0 then diff a b else if a == b then rest else diff a b

-- The loop of `Memcmp` with `n` bytes left; it stops before the last one, which is compared behind
-- it.
unfoldable pub memcmp_loop : List ℕ → List ℕ → ℕ → ℤ
memcmp_loop s₁ s₂ zero = pos 0
memcmp_loop [] s₂ (suc n) = diff 0 (get_or s₂ 0 0)
memcmp_loop (a ∷ s₁) [] (suc n) = diff a 0
memcmp_loop (a ∷ s₁) (b ∷ s₂) (suc n) =
    let rest = memcmp_loop s₁ s₂ n in if n == 0 then diff a b else if a == b then rest else diff a b

-- `Memcmp`, for a count that is not negative: at 0 the count goes once round the 32 bits.
unfoldable pub memcmp : List ℕ → List ℕ → ℕ → ℤ
unfolding memcmp_loop
memcmp s₁ s₂ n = memcmp_loop s₁ s₂ (if n == 0 then 2 ^ 32 else n)
