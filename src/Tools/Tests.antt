-- ===== src/Tools/Tests.antt =====
-- The theorems on strings and lists at short ones.
use wjos.Common.{◌≡◌, refl, false, none, some, [], ◌∷◌, arith, ◌==◌, if◌then◌else◌}
use wjos.Tools.Text.{itoa, digits, reverse, reverse_tail, vsprintf, convert, number}
use wjos.Tools.Nodes.{Store, list_insert_last, list_remove_first, list_remove}
use wjos.Tools.Nodes.Remove.{Unlinked, list_remove-Unlinked}
use wjos.Tools.Nodes.Queue.{
  list_of, Stands, Inserted, Removed, list_insert_last-Inserted, list_remove_first-Removed,
}

-- "n=-42" is printed from "n=%d".
print_negative :
    vsprintf false (110 ∷ 61 ∷ 37 ∷ 100 ∷ []) (number 0xFFFF_FFD6 ∷ [])
    ≡ 110 ∷ 61 ∷ 45 ∷ 52 ∷ 50 ∷ []
unfolding vsprintf convert itoa digits reverse reverse_tail
print_negative = refl

-- -16 in base 16 is printed with its last digit first.
print_hex : itoa 0xFFFF_FFF0 16 ≡ 48 ∷ 70 ∷ 70 ∷ 70 ∷ 70 ∷ 70 ∷ 70 ∷ 70 ∷ []
unfolding itoa digits reverse reverse_tail
print_hex = refl

-- The nodes 4 and 7.
abbrev two_nodes : Store
two_nodes = λ n.
    if n == 4
    then record { pre = none; next = some 7 }
    else if n == 7
    then record { pre = some 4; next = none }
    else record { pre = none; next = none }

two_nodes-Stands : Stands two_nodes (4 ∷ 7 ∷ [])
two_nodes-Stands = record { linked = (refl, refl, (refl, refl, tt)); once = λ n. ground arith }

list_insert_last-Inserted_example :
    Inserted (4 ∷ 7 ∷ []) 9 (list_insert_last (list_of (4 ∷ 7 ∷ [])) two_nodes 9)
list_insert_last-Inserted_example =
    list_insert_last-Inserted two_nodes (4 ∷ 7 ∷ []) 9 two_nodes-Stands refl

list_remove_first-Removed_example :
    Removed two_nodes (4 ∷ 7 ∷ []) (list_remove_first (list_of (4 ∷ 7 ∷ [])) two_nodes)
list_remove_first-Removed_example =
    list_remove_first-Removed two_nodes (4 ∷ 7 ∷ []) two_nodes-Stands

list_remove-Unlinked_example :
    Unlinked (4 ∷ []) 7 [] (list_remove (list_of (4 ∷ 7 ∷ [])) two_nodes 7)
list_remove-Unlinked_example = list_remove-Unlinked two_nodes (4 ∷ []) 7 [] two_nodes-Stands
