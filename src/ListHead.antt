-- ===== src/ListHead.antt =====
-- The circular doubly linked lists of cubelib/include/list.h, on an explicit store.
pub mod Ring
pub mod Insert
pub mod Remove
mod Tests
use cube.Prelude.{ℕ, Bool, ◌==◌, if◌then◌else◌}

-- The `next` and `prev` fields of every `struct List_head`, by its address.
pub record Store : Type 0 where
  pub next : ℕ → ℕ
  pub prev : ℕ → ℕ

abbrev pub update : (ℕ → ℕ) → ℕ → ℕ → ℕ → ℕ
update f a v b = if b == a then v else f b

-- `p->next = v` and `p->prev = v`.
abbrev pub set_next : ℕ → ℕ → Store → Store
set_next p v s = record s { next = update s.next p v }

abbrev pub set_prev : ℕ → ℕ → Store → Store
set_prev p v s = record s { prev = update s.prev p v }

-- `INIT_LIST_HEAD`.
unfoldable pub init_list_head : ℕ → Store → Store
init_list_head p s = set_prev p p (set_next p p s)

-- `__List_add`: the four stores in order.
unfoldable pub insert_between : ℕ → ℕ → ℕ → Store → Store
insert_between new prev next s =
    set_next prev new (set_prev new prev (set_next new next (set_prev next new s)))

-- `List_add`.
unfoldable pub list_add : ℕ → ℕ → Store → Store
list_add new head s = insert_between new head (s.next head) s

-- `List_add_tail`.
unfoldable pub list_add_tail : ℕ → ℕ → Store → Store
list_add_tail new head s = insert_between new (s.prev head) head s

-- The first two stores of `List_del`; the second reads the fields again.
unlink : ℕ → Store → Store
unlink head s =
    let s' = set_prev (s.next head) (s.prev head) s in set_next (s'.prev head) (s'.next head) s'

-- `List_del`.
unfoldable pub list_del : ℕ → Store → Store
unfolding unlink
list_del head s =
    if s.next head == head then s else set_next head head (set_prev head head (unlink head s))
