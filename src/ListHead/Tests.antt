-- ===== src/ListHead/Tests.antt =====
-- A list of two elements at the head 1, and the theorems at it.
use cube.Prelude.{◌≡◌, refl, [], ◌∷◌, arith}
use cube.ListHead.{Store, insert_between, init_list_head, list_add, list_add_tail, list_del}
use cube.ListHead.Ring.{Ring}
use cube.ListHead.Insert.{init_list_head-Ring, list_add_tail-Ring, list_add-Ring}
use cube.ListHead.Remove.{list_del-Ring}

abbrev blank : Store
blank = record { next = λ _. 0; prev = λ _. 0 }

abbrev lone : Store
lone = init_list_head 1 blank

lone-Ring : Ring lone 1 []
lone-Ring = init_list_head-Ring 1 blank

abbrev three : Store
three = list_add 3 1 (list_add_tail 2 1 lone)

three-Ring : Ring three 1 (3 ∷ 2 ∷ [])
three-Ring =
    list_add-Ring (list_add_tail 2 1 lone) 3 1 (2 ∷ [])
      (list_add_tail-Ring lone 2 1 [] lone-Ring (omega arith)) (omega arith)

list_del-Ring_example : Ring (list_del 3 three) 1 (2 ∷ []) × Ring (list_del 3 three) 3 []
list_del-Ring_example = list_del-Ring three 1 3 [] (2 ∷ []) three-Ring

next-three : three.next 1 ≡ 3
unfolding list_add list_add_tail init_list_head insert_between
next-three = refl
