-- ===== src/Tools/Nodes.antt =====
-- The doubly linked list of kernel/tools/list.c on a store of nodes. A `node_t *` is a number, and
-- `none` is the null pointer.
pub mod Queue
pub mod Links
pub mod Remove
use wjos.Common.{
  ℕ, zero, suc, ◌+◌, ◌-◌, Bool, true, false, Option, none, some, List, [], ◌∷◌, ◌++◌, ◌==◌,
  if◌then◌else◌,
}

pub record Node : Type 0 where
  pub pre : Option ℕ
  pub next : Option ℕ

abbrev pub Store : Type 0
Store = ℕ → Node

pub record NodeList : Type 0 where
  pub first : Option ℕ
  pub last : Option ℕ
  pub size : ℕ

unfoldable pub list_init : NodeList
list_init = record { first = none; last = none; size = 0 }

abbrev pub put_node : Store → ℕ → Node → Store
put_node h n node = λ x. if x == n then node else h x

-- `p->next = q` and `p->pre = q`, for a pointer that is not null.
abbrev pub set_next : Store → Option ℕ → Option ℕ → Store
set_next h none q = h
set_next h (some p) q = put_node h p (record (h p) { next = q })

abbrev pub set_pre : Store → Option ℕ → Option ℕ → Store
set_pre h none q = h
set_pre h (some p) q = put_node h p (record (h p) { pre = q })

abbrev pub next_of : Store → Option ℕ → Option ℕ
next_of h none = none
next_of h (some p) = (h p).next

abbrev pub pre_of : Store → Option ℕ → Option ℕ
pre_of h none = none
pre_of h (some p) = (h p).pre

-- `list->first == 0`, as in `list_is_empty`, chooses the branch.
unfoldable pub list_insert_first : NodeList → Store → ℕ → NodeList × Store
list_insert_first l h n =
    let h' = put_node h n (record { pre = none; next = l.first }) in
    elim l.first [
      | none ↦ (record { first = some n; last = some n; size = l.size + 1 }, h')
      | some f ↦ (record l { first = some n; size = l.size + 1 }, set_pre h' (some f) (some n))
    ]

unfoldable pub list_insert_last : NodeList → Store → ℕ → NodeList × Store
list_insert_last l h n =
    let h' = put_node h n (record { pre = l.last; next = none }) in
    elim l.first [
      | none ↦ (record { first = some n; last = some n; size = l.size + 1 }, h')
      | some f ↦ (record l { last = some n; size = l.size + 1 }, set_next h' l.last (some n))
    ]

abbrev pub unlinked : Node
unlinked = record { pre = none; next = none }

unfoldable pub list_remove_first : NodeList → Store → Option ℕ × NodeList × Store
list_remove_first l h = elim l.first [
  | none ↦ (none, l, h)
  | some n ↦
      let first = (h n).next in
      (
        some n,
        record {
          first = first;
          last = elim first [ none ↦ none | some f ↦ l.last ];
          size = l.size - 1;
        },
        put_node (set_pre h first none) n unlinked,
      )
]

unfoldable pub list_remove_last : NodeList → Store → Option ℕ × NodeList × Store
list_remove_last l h = elim l.last [
  | none ↦ (none, l, h)
  | some n ↦
      let last = (h n).pre in
      (
        some n,
        record {
          first = elim last [ none ↦ none | some f ↦ l.first ];
          last = last;
          size = l.size - 1;
        },
        put_node (set_next h last none) n unlinked,
      )
]

abbrev pub is_node : Option ℕ → ℕ → Bool
is_node none n = false
is_node (some p) n = p == n

unfoldable pub list_remove : NodeList → Store → ℕ → NodeList × Store
list_remove l h n =
    let node = h n in
    (
      record {
        first = if is_node l.first n then node.next else l.first;
        last = if is_node l.last n then node.pre else l.last;
        size = l.size - 1;
      },
      put_node (set_pre (set_next h node.pre node.next) node.next node.pre) n unlinked,
    )
