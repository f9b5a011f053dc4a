-- ===== src/PointerStack/Laws.antt =====
-- Last in, first out, up to `size - 1` pointers; and what a pop of an empty stack breaks.
use cube.Prelude.{
  ℕ, zero, suc, ◌+◌, ◌<◌, ◌≡◌, refl, ap, ◌∙◌, none, some, List, [], ◌∷◌, ◌++◌, ℤ, pos, negsuc,
  enospc, arith, leb, length, set, length-set, slice, slice-set_behind, get_or-set_self, inr,
  length-slice, Bool-cases, inl,
}
use native.Mathlib.Numerals.{add-one}
use cube.PointerStack.{PointerStack, pointer_stack_push, pointer_stack_pop}

abbrev CurrIn : ℕ → ℤ → Type 0
CurrIn size (pos c) = c < size
CurrIn size (negsuc n) = ⊥

pub record IsValid (s : PointerStack) : Type 0 where
  pub room : length s.buffer ≡ s.size
  pub in_array : CurrIn s.size s.curr

-- The pointers on the stack, the oldest first.
abbrev pub contents_of : List ℕ → ℤ → List ℕ
contents_of buffer (pos c) = slice buffer 0 c
contents_of buffer (negsuc n) = []

abbrev pub contents : PointerStack → List ℕ
contents s = contents_of s.buffer s.curr

abbrev pub depth : PointerStack → ℕ
depth s = length (contents s)

-- What a push does: it stores on top while there is room for one pointer more than that, and
-- otherwise changes nothing.
pub data Pushes (s : PointerStack) (x : ℕ) : ℤ × PointerStack → Type 0 where
  stored :
      {t : PointerStack}
      → depth s + 1 < s.size
      → IsValid t
      → contents t ≡ contents s ++ x ∷ []
      → pointer_stack_pop t ≡ (x, record s { buffer = t.buffer })
      → Pushes s x (pos 0, t)
  full : depth s + 1 ≡ s.size → Pushes s x (enospc, s)

abbrev at : List ℕ → ℕ → ℤ → PointerStack
at buffer size curr = record { buffer = buffer; curr = curr; size = size }

push_at :
    (buffer : List ℕ) (size x : ℕ) (curr : ℤ)
    → length buffer ≡ size
    → CurrIn size curr
    → let s = at buffer size curr in
      (out : ℤ × PointerStack) × (pointer_stack_push s x ≡ some out) × Pushes s x out
unfolding pointer_stack_push pointer_stack_pop
push_at buffer size x (negsuc n) room h = elim h [ ]
push_at buffer size x (pos c) room h =
    let d : length (slice buffer 0 c) ≡ c = length-slice buffer 0 c in
    elim (Bool-cases (leb size (c + 1))) [
      | inl top ↦ ((enospc, at buffer size (pos c)), rw top, full (ground arith))
      | inr free ↦
          let t = at (set buffer c x) size (pos (c + 1)) in
          (
            (pos 0, t),
            rw free,
            stored {t = t} (ground arith)
                (record { room = length-set buffer c x ∙ room; in_array = ground arith })
                (slice-set_behind buffer c x 0 c (c + 1) (omega arith) refl (omega arith))
                (rw (add-one c) (
                  ap (λ v. (v, at (set buffer c x) size (pos c)))
                    (get_or-set_self buffer c x 0 (omega arith)))),
          )
    ]

-- A push on a valid stack of `size` places either puts the pointer on top of at most `size - 2`
-- others, where the next pop finds it and gives the old stack back, or finds `size - 1` pointers
-- there, reports ENOSPC and changes nothing. The place that is left over is never used.
pub pointer_stack_push_lem :
    (s : PointerStack) (x : ℕ)
    → IsValid s
    → (out : ℤ × PointerStack) × (pointer_stack_push s x ≡ some out) × Pushes s x out
pointer_stack_push_lem s x v = push_at s.buffer s.size x s.curr v.room v.in_array

pop_empty_at :
    (buffer : List ℕ) (size x : ℕ) (curr : ℤ)
    → 0 < size
    → CurrIn size curr
    → contents_of buffer curr ≡ []
    → ((pointer_stack_pop (at buffer size curr)).0 ≡ 0)
      × (pointer_stack_push (pointer_stack_pop (at buffer size curr)).1 x ≡ none)
unfolding pointer_stack_pop pointer_stack_push slice
pop_empty_at buffer size x (negsuc n) h c e = elim c [ ]
pop_empty_at buffer size x (pos zero) h c e = (refl, ground arith)
pop_empty_at buffer size x (pos (suc n)) h c e = cc

-- A pop of a valid empty stack returns NULL and leaves the stack pointer in front of the array: the
-- next push stores outside of it, over the fields of the stack.
pub pop_empty_breaks_push :
    (s : PointerStack) (x : ℕ)
    → 0 < s.size
    → IsValid s
    → contents s ≡ []
    → ((pointer_stack_pop s).0 ≡ 0) × (pointer_stack_push (pointer_stack_pop s).1 x ≡ none)
pop_empty_breaks_push s x h v e = pop_empty_at s.buffer s.size x s.curr h v.in_array e
