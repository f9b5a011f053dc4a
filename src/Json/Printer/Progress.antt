-- ===== src/Json/Printer/Progress.antt =====
-- Each round of the printer leaves less of the tree, so the walk ends within its fuel.
use cube.Prelude.{
  ℕ, zero, suc, ◌+◌, ◌≤◌, ◌<◌, ◌≡◌, refl, ap, Bool, true, false, Bool-cases, inl, inr, ◌||◌, Option,
  none, some, List, [], ◌∷◌, ◌++◌, ℤ, pos, einval, ◌==◌, arith, length, if◌then◌else◌,
}
use cube.Json.{Node, Nodes, node, nil, cons, info_of, json_get_type, elem_map, elem_array}
use cube.Json.Printer.{
  Frame, Place, Turn, more, done, refused, enter, scalar_text, leave, print_child, name_text,
  next_child, opening, print_in, print_round, Printed, whole, part, behind, print_rounds, weight,
  weights, status_of, json_print_str,
}

-- What is left to do at a node and at those above it.
abbrev pub left_at : Frame → ℕ
left_at f = if f.comp_no == 0 then weights f.kids + 1 else weights f.left + 1

abbrev pub left_above : List Frame → ℕ
left_above [] = 0
left_above (f ∷ fathers) = left_at f + left_above fathers

abbrev pub left_of : Place → ℕ
left_of p = left_at p.curr + left_above p.fathers

-- A turn at a place with so much to do goes on with less to do.
pub data Lessens (n : ℕ) : Turn → Type 0 where
  goes_on : {written : List ℕ} {p : Place} → left_of p < n → Lessens n (more written p)
  ends : {written : List ℕ} → Lessens n (done written)
  stops : {written : List ℕ} → Lessens n (refused written)

Lessens-if :
    (b : Bool) {n : ℕ} {x y : Turn}
    → (b ≡ true → Lessens n x)
    → (b ≡ false → Lessens n y)
    → Lessens n (if b then x else y)
Lessens-if true p q = p refl
Lessens-if false p q = q refl

leave-Lessens :
    (written : List ℕ) (n : ℕ) (fathers : List Frame)
    → left_above fathers < n
    → Lessens n (leave written fathers)
unfolding leave
leave-Lessens written n [] h = ends
leave-Lessens written n (father ∷ fathers) h = goes_on h

-- A child of a frame that was counted with it.
print_child-Lessens :
    (written : List ℕ) (n : ℕ) (f : Frame) (fathers : List Frame) (child : Node)
    → left_at f + left_above fathers + weight child ≤ n
    → Lessens n (print_child written f fathers child)
unfolding print_child weight
print_child-Lessens written n f fathers (node i kids) h =
    Lessens-if ((json_get_type i == elem_map) || (json_get_type i == elem_array))
      (λ _. goes_on (omega arith))
      (λ _.
        elim (scalar_text i)
          as (λ value. Lessens n (elim value [
            | none ↦ refused written
            | some str ↦ more (written ++ str) (record { curr = f; fathers = fathers })
          ])) [ none ↦ stops | some str ↦ goes_on (omega arith) ])

next_child-Lessens :
    (named : Bool) (refusal written : List ℕ) (n : ℕ) (f : Frame) (fathers : List Frame)
    (kids : Nodes)
    → weights kids + 1 + left_above fathers ≤ n
    → Lessens n (next_child named refusal written f fathers kids)
unfolding next_child weight
next_child-Lessens named refusal written n f fathers nil h = stops
next_child-Lessens named refusal written n f fathers (cons child kids) h =
    let counted : (f.comp_no + 1 == 0) ≡ false = ground arith in
    print_child-Lessens (written ++ name_text named (info_of child)) n _ fathers child
      (rw counted (omega arith))

above_lt : (p : Place) → left_above p.fathers < left_of p
above_lt p = elim (Bool-cases (p.curr.comp_no == 0)) [
  | inl e ↦ rw e (omega arith)
  | inr e ↦ rw e (omega arith)
]

print_in-Lessens : (named : Bool) (p : Place) → Lessens (left_of p) (print_in named p)
unfolding print_in
print_in-Lessens named p =
    Lessens-if (p.curr.info.elem_no == 0) (λ _. leave-Lessens _ _ p.fathers (above_lt p))
      (λ _.
        Lessens-if (p.curr.comp_no == 0)
          (λ e. rw e (
            next_child-Lessens named (opening named ∷ []) (opening named ∷ []) _ p.curr p.fathers
              p.curr.kids (omega arith)))
          (λ e.
            Lessens-if (p.curr.comp_no == p.curr.info.elem_no)
              (λ _. leave-Lessens _ _ p.fathers (above_lt p))
              (λ _. rw e (
                next_child-Lessens named [] (b',' ∷ []) _ p.curr p.fathers p.curr.left
                  (omega arith)))))

pub print_round-Lessens : (p : Place) → Lessens (left_of p) (print_round p)
unfolding print_round
print_round-Lessens p =
    Lessens-if (json_get_type p.curr.info == elem_map) (λ _. print_in-Lessens true p)
      (λ _.
        Lessens-if (json_get_type p.curr.info == elem_array) (λ _. print_in-Lessens false p)
          (λ _. stops))

some-behind :
    (written : List ℕ) (o : Option Printed)
    → (r : Printed) × (o ≡ some r)
    → (r : Printed) × (behind written o ≡ some r)
some-behind written o (whole str, e) = (whole (written ++ str), ap (behind written) e)
some-behind written o (part str, e) = (part (written ++ str), ap (behind written) e)

print_rounds_total :
    (fuel : ℕ) (p : Place) → left_of p < fuel → (r : Printed) × (print_rounds fuel p ≡ some r)
unfolding print_rounds
print_rounds_total zero p h = absurd (omega arith)
print_rounds_total (suc fuel) p h =
    by_turn (λ p' l. print_rounds_total fuel p' (omega arith)) (print_round p)
      (print_round-Lessens p)
  where
    by_turn :
        ((p' : Place) → left_of p' < left_of p → (r : Printed) × (print_rounds fuel p' ≡ some r))
        → (t : Turn) → Lessens (left_of p) t
        → (r : Printed) × ((elim t [
          | more written p' ↦ behind written (print_rounds fuel p')
          | done written ↦ some (whole written)
          | refused written ↦ some (part written)
        ])
            ≡ some r)
    by_turn next (more written p') (goes_on l) =
        some-behind written (print_rounds fuel p') (next p' l)
    by_turn next (done written) l = (whole written, refl)
    by_turn next (refused written) l = (part written, refl)

-- The walk from a root, with what `json_print_str` makes of its outcome.
pub enter-left : (root : Node) → left_of (record { curr = enter root; fathers = [] }) < weight root
unfolding weight
enter-left (node i kids) = omega arith

some-status_of :
    (o : Option Printed) → (r : Printed) × (o ≡ some r) → (r : ℤ × List ℕ) × (status_of o ≡ some r)
some-status_of o (whole str, e) = ((pos (length str), str), ap status_of e)
some-status_of o (part str, e) = ((einval, str), ap status_of e)

-- `json_print_str` ends on every tree, whatever the types and the numbers of children that its nodes
-- state.
pub json_print_str_total : (root : Node) → (r : ℤ × List ℕ) × (json_print_str root ≡ some r)
unfolding json_print_str
json_print_str_total root = some-status_of _ (print_rounds_total (weight root) _ (enter-left root))
