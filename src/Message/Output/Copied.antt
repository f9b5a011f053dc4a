-- ===== src/Message/Output/Copied.antt =====
-- The copy of sites whose bytes are known, in message_output_blob of cubelib/message/message.c.
use cube.Prelude.{
  ℕ, zero, suc, ◌+◌, ◌≤◌, ◌≡◌, refl, sym, ap, ◌∙◌, true, leb, Option, some, List, [], ◌∷◌, ◌++◌,
  append_assoc, append-nil, length, length-append, memcpy, slice, slice_all, slice-memcpy_behind,
  length-memcpy, arith,
}
use cube.Message.{joined, Site}
use cube.Message.Output.{copy_sites}

-- A relation between each site and the bytes at its place.
abbrev pub Each : {A : Type 0} → (A → List ℕ → Type 0) → List A → List (List ℕ) → Type 0
Each P [] [] = Unit
Each P [] (b ∷ bytes) = ⊥
Each P (s ∷ sites) [] = ⊥
Each P (s ∷ sites) (b ∷ bytes) = P s b × Each P sites bytes

-- A site with these bytes and their size.
pub record Filled {A : Type 0} (s : Site A) (b : List ℕ) : Type 0 where
  pub has_bytes : s.bytes ≡ some b
  pub has_size : s.size ≡ length b

pub length-Each :
    {A : Type 0} (P : A → List ℕ → Type 0) (sites : List A) (bytes : List (List ℕ))
    → Each P sites bytes
    → length sites ≡ length bytes
length-Each P [] [] e = refl
length-Each P [] (b ∷ bytes) e = elim e [ ]
length-Each P (s ∷ sites) [] e = elim e [ ]
length-Each P (s ∷ sites) (b ∷ bytes) e = ap suc (length-Each P sites bytes e.1)

copy_sites_at :
    {A : Type 0} (n : ℕ) (stored : Option (List ℕ)) (struct : Option A) (size : ℕ)
    (sites : List (Site A)) (buffer : List ℕ) (offset : ℕ) (b : List ℕ)
    → stored ≡ some b
    → size ≡ length b
    → offset + length b ≤ length buffer
    → copy_sites
        (suc n)
        (record { bytes = stored; struct = struct; size = size } ∷ sites)
        buffer
        offset
      ≡ copy_sites n sites (memcpy buffer offset b 0 (length b)) (offset + length b)
unfolding copy_sites
copy_sites_at n stored struct size sites buffer offset b e e' h =
    let within : leb (offset + length b) (length buffer) ≡ true = ground arith in
    let all : leb (length b) (length b) ≡ true = ground arith in
    rw (e, e', within, all)
      (ap (λ k. copy_sites n sites (memcpy buffer offset b 0 (length b)) (offset + k)) e')

-- The copies of the bytes of all sites stand one behind the other, behind those before them.
pub copy_sites_lem :
    {A : Type 0} (n : ℕ) (sites : List (Site A)) (bytes : List (List ℕ)) (buffer : List ℕ)
    (start m : ℕ)
    → n ≡ length sites
    → Each Filled sites bytes
    → start + m + length (joined bytes) ≤ length buffer
    → (buffer' : List ℕ) × (copy_sites n sites buffer (start + m)
        ≡ some (buffer', start + m + length (joined bytes)))
      × (length buffer' ≡ length buffer)
      × (slice buffer' start (m + length (joined bytes)) ≡ slice buffer start m ++ joined bytes)
unfolding copy_sites
copy_sites_lem zero [] [] buffer start m e f h = (
  buffer,
  ap (λ k. some (buffer, k)) (omega arith),
  refl,
  ap (slice buffer start) (let z : m + 0 ≡ m = omega arith in z)
      ∙ sym (append-nil (slice buffer start m)),
)
copy_sites_lem zero (s ∷ sites) bytes buffer start m e f h = absurd (omega arith)
copy_sites_lem zero [] (b ∷ bytes) buffer start m e f h = elim f [ ]
copy_sites_lem (suc n) [] bytes buffer start m e f h = absurd (omega arith)
copy_sites_lem (suc n) (s ∷ sites) [] buffer start m e f h = elim f [ ]
copy_sites_lem (suc n) (s ∷ sites) (b ∷ bytes) buffer start m e f h =
    let size : length (b ++ joined bytes) ≡ length b + length (joined bytes) =
      length-append b (joined bytes) in
    let next : List ℕ = memcpy buffer (start + m) b 0 (length b) in
    let kept : length next ≡ length buffer = length-memcpy buffer (start + m) b 0 (length b) in
    let (buffer', ran, len, is) =
      copy_sites_lem n sites bytes next start (m + length b) (omega arith) f.1 (omega arith) in
    (
      buffer',
      copy_sites_at n s.bytes s.struct s.size sites buffer (start + m) b f.0.has_bytes f.0.has_size
            (omega arith)
          ∙ ap (copy_sites n sites next)
              (let a : start + m + length b ≡ start + (m + length b) = omega arith in a)
          ∙ ran
          ∙ ap (λ k. some (buffer', k)) (omega arith),
      len ∙ kept,
      ap (slice buffer' start) (omega arith)
          ∙ is
          ∙ ap (λ l. l ++ joined bytes)
              (slice-memcpy_behind buffer b start (start + m) 0 m (length b) (m + length b) refl
                  refl (omega arith)
                ∙ ap (λ l. slice buffer start m ++ l) (slice_all b))
          ∙ append_assoc (slice buffer start m) b (joined bytes),
    )
