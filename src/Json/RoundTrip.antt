-- ===== src/Json/RoundTrip.antt =====
-- The reader and the printer of json.c together.
use cube.Prelude.{ℕ, ◌≡◌, Bool, true, false, some, List, [], ◌∷◌, ◌++◌, pos, arith, length, All}
use cube.Json.Spec.{
  Value, Members, string, number, flag, end, member, text, tree, IsPlain, NoNul, IsReadable,
  AreReadable, IsPrintable, ArePrintable, IsDocument,
}
use cube.Json.Reader.{Room, enough, solved, json_solve_str}
use cube.Json.Reader.RoundTrip.{json_solve_str-text}
use cube.Json.Printer.{json_print_str}
use cube.Json.Printer.Text.{json_print_str-tree}

NoNul-IsPlain : (s : List ℕ) → All IsPlain s → All NoNul s
NoNul-IsPlain [] h = tt
NoNul-IsPlain (c ∷ s) h = (h.0.0, NoNul-IsPlain s h.1)

-- What is read back is printed whole.
mutual
  IsPrintable-IsReadable : (v : Value) → IsReadable v → IsPrintable v
  IsPrintable-IsReadable (string s) h = (NoNul-IsPlain s h.0, omega (arith, h.1))
  IsPrintable-IsReadable (number n) h = h
  IsPrintable-IsReadable (flag true) h = tt
  IsPrintable-IsReadable (flag false) h = absurd h
  IsPrintable-IsReadable (Value.map ms) h = ArePrintable-AreReadable true ms h
  IsPrintable-IsReadable (Value.array ms) h = ArePrintable-AreReadable false ms h

  ArePrintable-AreReadable :
      (named : Bool) (ms : Members) → AreReadable named ms → ArePrintable named ms
  ArePrintable-AreReadable named end h = tt
  ArePrintable-AreReadable true (member name v ms) h = (
    (NoNul-IsPlain name h.0.0, omega (arith, h.0.1)),
    IsPrintable-IsReadable v h.1,
    ArePrintable-AreReadable true ms h.2,
  )
  ArePrintable-AreReadable false (member name v ms) h =
      (tt, IsPrintable-IsReadable v h.1, ArePrintable-AreReadable false ms h.2)

-- The tree of a readable map or array is printed by `json_print_str` to a text from which
-- `json_solve_str`, with memory for the root and for each round and whatever stands behind the text,
-- makes the same tree again, and it reads as many characters as were printed.
pub solve_print :
    (memory : ℕ → Room)
    → ((n : ℕ) → memory n ≡ enough)
    → (v : Value) (rest : List ℕ) → IsDocument v
    → IsReadable v
    → (str : List ℕ) × (json_print_str (tree true [] v) ≡ some (pos (length str), str))
      × (json_solve_str true memory (str ++ rest) ≡ some (solved (length str) (tree true [] v)))
solve_print memory plenty v rest d h = (
  text v,
  json_print_str-tree v true [] d (IsPrintable-IsReadable v h),
  json_solve_str-text memory plenty v rest d h,
)
