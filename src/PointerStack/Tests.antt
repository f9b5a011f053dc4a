-- ===== src/PointerStack/Tests.antt =====
-- A stack of three places, and the theorems at it.
use cube.Prelude.{◌≡◌, refl, none, [], ◌∷◌, pos, arith, slice}
use cube.PointerStack.{PointerStack, pointer_stack_push, pointer_stack_pop}
use cube.PointerStack.Laws.{IsValid, pop_empty_breaks_push}

abbrev one_on : PointerStack
one_on = record { buffer = 11 ∷ 0 ∷ 0 ∷ []; curr = pos 1; size = 3 }

abbrev nothing_on : PointerStack
nothing_on = record { buffer = 0 ∷ 0 ∷ 0 ∷ []; curr = pos 0; size = 3 }

one_on-IsValid : IsValid one_on
one_on-IsValid = omega arith

pop-one_on : (pointer_stack_pop one_on).0 ≡ 11
unfolding pointer_stack_pop
pop-one_on = refl

pop_empty_breaks_push_example :
    ((pointer_stack_pop nothing_on).0 ≡ 0)
    × (pointer_stack_push (pointer_stack_pop nothing_on).1 22 ≡ none)
pop_empty_breaks_push_example =
    pop_empty_breaks_push nothing_on 22 (omega arith) (omega arith) (unfold slice in refl)
