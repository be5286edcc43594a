-- ===== src/Tools/Nodes/Remove.antt =====
-- `list_remove` of kernel/tools/list.c on the sequence of the list's nodes.
use wjos.Common.{
  ℕ, ◌-◌, ◌≤◌, ◌≡◌, refl, ◌≢◌, Option, none, some, List, [], ◌∷◌, ◌++◌, arith, if◌then◌else◌,
  length, length-append, append-nil, ap, ◌∙◌,
}
use wjos.Sched.Lists.{count, count-append}
use wjos.Tools.Nodes.{Store, NodeList, is_node, list_remove, unlinked}
use wjos.Tools.Nodes.Queue.{
  head_of, last_of, IsLinked, list_of, Stands, last_of-snoc, last_of-count,
}
use wjos.Tools.Nodes.Links.{some_apart, prev, append-Elsewhere, head_out, IsLinked-without}

-- The links of the removed node.
links_of :
    (h : Store) (xs : List ℕ) (p : Option ℕ) (n : ℕ) (bs : List ℕ)
    → IsLinked h p (xs ++ (n ∷ bs))
    → ((h n).pre ≡ prev p xs) × ((h n).next ≡ head_of bs)
links_of h [] p n bs (pre, next, rest) = (pre, next)
links_of h (a ∷ xs) p n bs (pre, next, rest) = links_of h xs (some a) n bs rest

first_without :
    (xs : List ℕ) (n : ℕ) (bs : List ℕ)
    → ((m : ℕ) → count m (xs ++ (n ∷ bs)) ≤ 1)
    → (if is_node (head_of (xs ++ (n ∷ bs))) n then head_of bs else head_of (xs ++ (n ∷ bs)))
      ≡ head_of (xs ++ bs)
first_without [] n bs once = ground arith
first_without (a ∷ xs) n bs once =
    let ne = (append-Elsewhere a xs n bs (head_out a (xs ++ (n ∷ bs)) (once a))).other in
    ground (arith, ne)

last_of-append : (xs : List ℕ) (b : ℕ) (bs : List ℕ) → last_of (xs ++ (b ∷ bs)) ≡ last_of (b ∷ bs)
last_of-append [] b bs = refl
last_of-append (x ∷ []) b bs = refl
last_of-append (x ∷ y ∷ xs) b bs = last_of-append (y ∷ xs) b bs

prev_last : (xs : List ℕ) → prev none xs ≡ last_of xs
prev_last [] = refl
prev_last (a ∷ xs) = go a xs
  where
    go : (a : ℕ) (xs : List ℕ) → prev (some a) xs ≡ last_of (a ∷ xs)
    go a [] = refl
    go a (b ∷ xs) = go b xs

if_node : (n : ℕ) (o q : Option ℕ) → o ≢ some n → (if is_node o n then q else o) ≡ o
if_node n none q ne = refl
if_node n (some t) q ne = let d : t ≢ n = λ e. ne (ap some e) in ground (arith, d)

if_self : (n : ℕ) (o q : Option ℕ) → (if is_node (some n) n then q else o) ≡ q
if_self n o q = ground arith

last_without :
    (xs : List ℕ) (n : ℕ) (bs : List ℕ)
    → ((m : ℕ) → count m (xs ++ (n ∷ bs)) ≤ 1)
    → (if is_node (last_of (xs ++ (n ∷ bs))) n then prev none xs else last_of (xs ++ (n ∷ bs)))
      ≡ last_of (xs ++ bs)
last_without xs n [] once =
    rw (last_of-snoc xs n, append-nil xs) (if_self n (some n) (prev none xs) ∙ prev_last xs)
last_without xs n (b ∷ bs) once =
    rw (last_of-append xs n (b ∷ bs), last_of-append xs b bs)
      (if_node n (last_of (b ∷ bs)) (prev none xs) (
        some_apart (b ∷ bs) n (last_of (b ∷ bs)) (self_out xs n (b ∷ bs) (once n))
          (last_of-count b bs)))
  where
    self_out : (xs : List ℕ) (n : ℕ) (bs : List ℕ) → count n (xs ++ (n ∷ bs)) ≤ 1 → count n bs ≡ 0
    self_out xs n bs le = ground (arith, le, count-append n xs (n ∷ bs))

once_without :
    (xs : List ℕ) (n : ℕ) (bs : List ℕ) (m : ℕ)
    → count m (xs ++ (n ∷ bs)) ≤ 1
    → count m (xs ++ bs) ≤ 1
once_without xs n bs m le = ground (arith, le, count-append m xs (n ∷ bs), count-append m xs bs)

size_without : (xs : List ℕ) (n : ℕ) (bs : List ℕ) → length (xs ++ (n ∷ bs)) - 1 ≡ length (xs ++ bs)
size_without xs n bs = ground (arith, length-append xs (n ∷ bs), length-append xs bs)

-- What the removal of the node `n` comes to, where `xs` is before it and `bs` behind it.
abbrev pub Unlinked : List ℕ → ℕ → List ℕ → NodeList × Store → Type 0
Unlinked xs n bs (l, h) = (l ≡ list_of (xs ++ bs)) × Stands h (xs ++ bs) × (h n ≡ unlinked)

-- On the list of a sequence of distinct nodes whose links the store holds, list_remove of any node
-- of the sequence gives the list of the others in their order, the store holds their links, and the
-- removed node's links are cleared.
pub list_remove-Unlinked :
    (h : Store) (xs : List ℕ) (n : ℕ) (bs : List ℕ)
    → Stands h (xs ++ (n ∷ bs))
    → Unlinked xs n bs (list_remove (list_of (xs ++ (n ∷ bs))) h n)
unfolding list_remove
list_remove-Unlinked h xs n bs s =
    let (pre, next) = links_of h xs none n bs s.linked in
    rw (pre, next, first_without xs n bs s.once, last_without xs n bs s.once, size_without xs n bs)
      (
        refl,
        record {
          linked =
              IsLinked-without h xs none n bs s.linked s.once (λ t e. absurd (ground (arith, e)));
          once = λ m. once_without xs n bs m (s.once m);
        },
        ground arith,
      )
