-- ===== src/Tools/Nodes/Queue.antt =====
-- The list of kernel/tools/list.c as the sequence of its nodes, for the two operations of a queue.
use wjos.Common.{
  ℕ, suc, ◌+◌, ◌-◌, ◌≤◌, ◌≡◌, refl, ◌≢◌, inl, inr, Option, none, some, List, [], ◌∷◌, ◌++◌, arith,
  ◌==◌, Bool-cases, ==_iff, length, length-append, ap, ◌∙◌, sym, subst,
}
use wjos.Sched.Lists.{count, count-append}
use wjos.Tools.Nodes.{
  Node, Store, NodeList, put_node, set_next, set_pre, list_insert_last, list_remove_first, unlinked,
}

abbrev pub head_of : List ℕ → Option ℕ
head_of [] = none
head_of (x ∷ xs) = some x

abbrev pub last_of : List ℕ → Option ℕ
last_of [] = none
last_of (x ∷ []) = some x
last_of (x ∷ y ∷ xs) = last_of (y ∷ xs)

-- The nodes of `xs` are linked both ways, the first back to `p`.
abbrev pub IsLinked : Store → Option ℕ → List ℕ → Type 0
IsLinked h p [] = Unit
IsLinked h p (x ∷ xs) = ((h x).pre ≡ p) × ((h x).next ≡ head_of xs) × IsLinked h (some x) xs

-- The `list_t` of a sequence of nodes.
abbrev pub list_of : List ℕ → NodeList
list_of xs = record { first = head_of xs; last = last_of xs; size = length xs }

-- The store holds the links of a sequence of distinct nodes.
pub record Stands (h : Store) (xs : List ℕ) : Type 0 where
  pub linked : IsLinked h none xs
  pub once : (n : ℕ) → count n xs ≤ 1

-- Linked nodes stay so under writes of other nodes.
pub IsLinked-frame :
    (h h' : Store) (p : Option ℕ) (xs : List ℕ)
    → ((x : ℕ) → 1 ≤ count x xs → h' x ≡ h x)
    → IsLinked h p xs
    → IsLinked h' p xs
IsLinked-frame h h' p [] same k = k
IsLinked-frame h h' p (x ∷ xs) same (a, b, k) =
    let e : h' x ≡ h x = same x (ground arith) in
    (
      ap (λ (m : Node). m.pre) e ∙ a,
      ap (λ (m : Node). m.next) e ∙ b,
      IsLinked-frame h h' (some x) xs (λ y le. same y (ground (arith, le))) k,
    )

pub last_of-snoc : (xs : List ℕ) (n : ℕ) → last_of (xs ++ (n ∷ [])) ≡ some n
last_of-snoc [] n = refl
last_of-snoc (x ∷ []) n = refl
last_of-snoc (x ∷ y ∷ xs) n = last_of-snoc (y ∷ xs) n

-- The store behind an insertion after the node `t`.
abbrev appended : Store → ℕ → ℕ → Store
appended h t n = set_next (put_node h n (record { pre = some t; next = none })) (some t) (some n)

pub last_of-count : (x : ℕ) (xs : List ℕ) (t : ℕ) → last_of (x ∷ xs) ≡ some t → 1 ≤ count t (x ∷ xs)
last_of-count x [] t e = ground (arith, e)
last_of-count x (y ∷ xs) t e = ground (arith, last_of-count y xs t e)

pub last_some : (x : ℕ) (xs : List ℕ) → last_of (x ∷ xs) ≢ none
last_some x [] e = ground (arith, e)
last_some x (y ∷ xs) e = last_some y xs e

appended-other : (h : Store) (t n x : ℕ) → x ≢ t → x ≢ n → appended h t n x ≡ h x
appended-other h t n x ne nn = ground (arith, ne, nn)

other : (x y : ℕ) (xs : List ℕ) (t : ℕ) → count x (x ∷ y ∷ xs) ≤ 1 → 1 ≤ count t (y ∷ xs) → x ≢ t
other x y xs t once there e =
    absurd (clash x t (y ∷ xs) (subst (λ k. 1 ≤ count k (y ∷ xs)) (sym e) there) once)
  where
    clash : (x t : ℕ) (l : List ℕ) → 1 ≤ count x l → count x (x ∷ l) ≤ 1 → ⊥
    clash x t l a b = ground (arith, a, b)

rest_once : (x y : ℕ) (xs : List ℕ) (n : ℕ) → count n (x ∷ y ∷ xs) ≤ 1 → count n (y ∷ xs) ≤ 1
rest_once x y xs n out = ground (arith, out)

other_head : (x y : ℕ) (xs : List ℕ) → count x (x ∷ y ∷ xs) ≤ 1 → y ≢ x
other_head x y xs once e = absurd (ground (arith, once, e))

-- The nodes behind the first two are written by no removal of the first.
spared :
    (h : Store) (x y : ℕ) (xs : List ℕ) (z : ℕ)
    → count x (x ∷ y ∷ xs) ≤ 1
    → count y (x ∷ y ∷ xs) ≤ 1
    → 1 ≤ count z xs
    → put_node (set_pre h (some y) none) x unlinked z ≡ h z
spared h x y xs z ox oy le =
    let nx : z ≢ x =
      λ e. clash x (y ∷ xs) ox (subst (λ k. 1 ≤ count k (y ∷ xs)) e (later y xs z le)) in
    let ny : z ≢ y = λ e. clash y xs (rest_once x y xs y oy) (subst (λ k. 1 ≤ count k xs) e le) in
    ground (arith, nx, ny)
  where
    clash : (t : ℕ) (l : List ℕ) → count t (t ∷ l) ≤ 1 → 1 ≤ count t l → ⊥
    clash t l a b = ground (arith, a, b)

    later : (y : ℕ) (xs : List ℕ) (z : ℕ) → 1 ≤ count z xs → 1 ≤ count z (y ∷ xs)
    later y xs z a = ground (arith, a)

distinct : (x y : ℕ) (xs : List ℕ) (n : ℕ) → count n (x ∷ y ∷ xs) ≡ 0 → x ≢ n
distinct x y xs n out = ground (arith, out)

rest_out : (x y : ℕ) (xs : List ℕ) (n : ℕ) → count n (x ∷ y ∷ xs) ≡ 0 → count n (y ∷ xs) ≡ 0
rest_out x y xs n out = ground (arith, out)

snoc_once : (xs : List ℕ) (n m : ℕ) → count n xs ≡ 0 → count m xs ≤ 1 → count m (xs ++ (n ∷ [])) ≤ 1
snoc_once xs n m out le = elim (Bool-cases (n == m)) [
  | inl e ↦
      let same : count m xs ≡ count n xs = ap (λ k. count k xs) (sym ((==_iff n m).0 e)) in
      ground (arith, count-append m xs (n ∷ []), same, out)
  | inr e ↦ ground (arith, count-append m xs (n ∷ []), le, e)
]

abbrev ending : Option ℕ → ℕ → Option ℕ × ℕ
ending o k = (o, k)

ends :
    (x : ℕ) (xs : List ℕ) (n : ℕ)
    → ending (some n) (length (x ∷ xs) + 1)
      ≡ ending (last_of (x ∷ (xs ++ (n ∷ [])))) (length (x ∷ (xs ++ (n ∷ []))))
ends x xs n =
    ap (λ o. ending o (length (x ∷ xs) + 1)) (sym (last_of-snoc (x ∷ xs) n))
    ∙ ap (λ k. ending (last_of (x ∷ (xs ++ (n ∷ [])))) k) (omega (arith, length-append xs (n ∷ [])))

IsLinked-snoc :
    (h : Store) (p : Option ℕ) (x : ℕ) (xs : List ℕ) (t n : ℕ)
    → IsLinked h p (x ∷ xs)
    → last_of (x ∷ xs) ≡ some t
    → count n (x ∷ xs) ≡ 0
    → ((m : ℕ) → count m (x ∷ xs) ≤ 1)
    → IsLinked (appended h t n) p (x ∷ (xs ++ (n ∷ [])))
IsLinked-snoc h p x [] t n (a, b, k) e out once =
    let same : x ≡ t = ground (arith, e) in
    let ne : n ≢ t = ground (arith, out, e) in
    (
      ground (arith, same, ne, a),
      ground (arith, same, ne),
      (ground (arith, same, ne), ground (arith, same, ne), tt),
    )
IsLinked-snoc h p x (y ∷ xs) t n (a, b, k) e out once =
    let there = last_of-count y xs t e in
    let same : appended h t n x ≡ h x =
      appended-other h t n x (other x y xs t (once x) there) (distinct x y xs n out) in
    (
      ap (λ (m : Node). m.pre) same ∙ a,
      ap (λ (m : Node). m.next) same ∙ b,
      IsLinked-snoc h (some x) y xs t n k e (rest_out x y xs n out)
          (λ m. rest_once x y xs m (once m)),
    )

-- What an insertion at the end of the list of `xs` comes to.
abbrev pub Inserted : List ℕ → ℕ → NodeList × Store → Type 0
Inserted xs n r = (r.0 ≡ list_of (xs ++ (n ∷ []))) × Stands r.1 (xs ++ (n ∷ []))

insert_end :
    (h : Store) (x : ℕ) (xs : List ℕ) (n : ℕ) (o : Option ℕ)
    → last_of (x ∷ xs) ≡ o
    → Stands h (x ∷ xs)
    → count n (x ∷ xs) ≡ 0
    → Inserted (x ∷ xs) n (
      record { first = some x; last = some n; size = length (x ∷ xs) + 1 },
      set_next (put_node h n (record { pre = o; next = none })) o (some n),
    )
insert_end h x xs n none e s out = absurd (last_some x xs e)
insert_end h x xs n (some t) e s out = (
  ap (λ (p : Option ℕ × ℕ). record { first = some x; last = p.0; size = p.1 }) (ends x xs n),
  record {
    linked = IsLinked-snoc h none x xs t n s.linked e out s.once;
    once = λ m. snoc_once (x ∷ xs) n m out (s.once m);
  },
)

-- A node that is in no list, inserted last into the list of a sequence, gives the list of the
-- sequence with the node behind it, and the links of it.
pub list_insert_last-Inserted :
    (h : Store) (xs : List ℕ) (n : ℕ)
    → Stands h xs
    → count n xs ≡ 0
    → Inserted xs n (list_insert_last (list_of xs) h n)
unfolding list_insert_last
list_insert_last-Inserted h [] n s out =
    (refl, record { linked = (ground arith, ground arith, tt); once = λ m. ground arith })
list_insert_last-Inserted h (x ∷ xs) n s out = insert_end h x xs n (last_of (x ∷ xs)) refl s out

-- What a removal of the first node comes to: none of the empty sequence, else its head, with its
-- links cleared, and the list of the rest.
abbrev pub Removed : Store → List ℕ → Option ℕ × NodeList × Store → Type 0
Removed h [] (o, l, h') = (o ≡ none) × (l ≡ list_of []) × (h' ≡ h)
Removed h (x ∷ xs) (o, l, h') = (o ≡ some x) × (l ≡ list_of xs) × Stands h' xs × (h' x ≡ unlinked)

remove_head :
    (h : Store) (x y : ℕ) (xs : List ℕ)
    → Stands h (x ∷ y ∷ xs)
    → Stands (put_node (set_pre h (some y) none) x unlinked) (y ∷ xs)
remove_head h x y xs s =
    let h' = put_node (set_pre h (some y) none) x unlinked in
    let (a, b, (c, d, k)) = s.linked in
    let ne : y ≢ x = other_head x y xs (s.once x) in
    record {
      linked = (
        ground (arith, ne),
        ground (arith, ne, d),
        IsLinked-frame h h' (some y) xs (λ z le. spared h x y xs z (s.once x) (s.once y) le) k,
      );
      once = λ m. rest_once x y xs m (s.once m);
    }

-- On the list of a sequence whose links the store holds, list_remove_first gives none where the
-- sequence is empty; else its head, with its links cleared, and the list of the rest.
pub list_remove_first-Removed :
    (h : Store) (xs : List ℕ) → Stands h xs → Removed h xs (list_remove_first (list_of xs) h)
unfolding list_remove_first
list_remove_first-Removed h [] s = (refl, refl, refl)
list_remove_first-Removed h (x ∷ []) s =
    rw s.linked.1 (refl, refl, record { linked = tt; once = λ m. omega arith }, ground arith)
list_remove_first-Removed h (x ∷ y ∷ xs) s = rw s.linked.1 (
  refl,
  ap (λ k. record { first = some y; last = last_of (y ∷ xs); size = k }) (shorter (length xs)),
  remove_head h x y xs s,
  ground arith,
)
  where
    shorter : (n : ℕ) → suc (suc n) - 1 ≡ suc n
    shorter n = omega arith
