-- ===== src/Tools/Nodes/Links.antt =====
-- The links that `list_remove` of kernel/tools/list.c writes.
use wjos.Common.{
  ℕ, ◌≤◌, ◌≡◌, ◌≢◌, Option, none, some, List, [], ◌∷◌, ◌++◌, arith, ap, ◌∙◌, sym, subst,
}
use wjos.Sched.Lists.{count, count-append}
use wjos.Tools.Nodes.{Store, put_node, set_next, set_pre, unlinked}
use wjos.Tools.Nodes.Queue.{head_of, IsLinked, IsLinked-frame}

-- The store behind the removal of `n`, between `p` and `q`.
abbrev without : Store → Option ℕ → Option ℕ → ℕ → Store
without h p q n = put_node (set_pre (set_next h p q) q p) n unlinked

module _ (h : Store) (n x : ℕ) (ne : x ≢ n) where
  without-pre : (p q : Option ℕ) → q ≢ some x → (without h p q n x).pre ≡ (h x).pre
  without-pre none none nq = ground (arith, ne)
  without-pre (some p) none nq = ground (arith, ne)
  without-pre none (some q) nq = let d : x ≢ q = λ e. nq (ap some (sym e)) in ground (arith, ne, d)
  without-pre (some p) (some q) nq =
      let d : x ≢ q = λ e. nq (ap some (sym e)) in ground (arith, ne, d)

  without-next : (p q : Option ℕ) → p ≢ some x → (without h p q n x).next ≡ (h x).next
  without-next none none np = ground (arith, ne)
  without-next none (some q) np = ground (arith, ne)
  without-next (some p) none np = let d : x ≢ p = λ e. np (ap some (sym e)) in ground (arith, ne, d)
  without-next (some p) (some q) np =
      let d : x ≢ p = λ e. np (ap some (sym e)) in ground (arith, ne, d)

  without-pre_at : (p : Option ℕ) → (without h p (some x) n x).pre ≡ p
  without-pre_at none = ground (arith, ne)
  without-pre_at (some p) = ground (arith, ne)

  without-next_at : (q : Option ℕ) → (without h (some x) q n x).next ≡ q
  without-next_at none = ground (arith, ne)
  without-next_at (some q) = ground (arith, ne)

  without-same : (p q : Option ℕ) → p ≢ some x → q ≢ some x → without h p q n x ≡ h x
  without-same none none np nq = ground (arith, ne)
  without-same (some p) none np nq =
      let d : x ≢ p = λ e. np (ap some (sym e)) in ground (arith, ne, d)
  without-same none (some q) np nq =
      let d : x ≢ q = λ e. nq (ap some (sym e)) in ground (arith, ne, d)
  without-same (some p) (some q) np nq =
      let d : x ≢ p = λ e. np (ap some (sym e)) in
      let d' : x ≢ q = λ e. nq (ap some (sym e)) in ground (arith, ne, d, d')

-- A node in a list, and one that is not.
apart : (l : List ℕ) (x t : ℕ) → count x l ≡ 0 → 1 ≤ count t l → t ≢ x
apart l x t out there e = omega (arith, out, subst (λ k. 1 ≤ count k l) e there)

pub some_apart :
    (l : List ℕ) (x : ℕ) (o : Option ℕ)
    → count x l ≡ 0
    → ((t : ℕ) → o ≡ some t → 1 ≤ count t l)
    → o ≢ some x
some_apart l x o out there e = omega (arith, out, there x e)

head_count : (bs : List ℕ) (t : ℕ) → head_of bs ≡ some t → 1 ≤ count t bs
head_count [] t e = cc
head_count (b ∷ bs) t e = ground (arith, e)

-- The node before the ones behind `xs`.
abbrev pub prev : Option ℕ → List ℕ → Option ℕ
prev p [] = p
prev p (a ∷ xs) = prev (some a) xs

prev_count : (a : ℕ) (xs : List ℕ) (t : ℕ) → prev (some a) xs ≡ some t → 1 ≤ count t (a ∷ xs)
prev_count a [] t e = ground (arith, e)
prev_count a (b ∷ xs) t e = ground (arith, prev_count b xs t e)

-- A node that is none of the nodes of a sequence is none of its parts.
pub record Elsewhere (x : ℕ) (xs : List ℕ) (n : ℕ) (bs : List ℕ) : Type 0 where
  pub before : count x xs ≡ 0
  pub other : x ≢ n
  pub behind : count x bs ≡ 0

pub append-Elsewhere :
    (x : ℕ) (xs : List ℕ) (n : ℕ) (bs : List ℕ) → count x (xs ++ (n ∷ bs)) ≡ 0 → Elsewhere x xs n bs
append-Elsewhere x xs n bs out = record {
  before = ground (arith, out, count-append x xs (n ∷ bs));
  other = λ e. ground (arith, out, e, count-append x xs (n ∷ bs));
  behind = ground (arith, out, count-append x xs (n ∷ bs));
}

pub head_out : (x : ℕ) (l : List ℕ) → count x (x ∷ l) ≤ 1 → count x l ≡ 0
head_out x l le = ground (arith, le)

tail_once : (x y : ℕ) (l : List ℕ) → count y (x ∷ l) ≤ 1 → count y l ≤ 1
tail_once x y l le = ground (arith, le)

tail_out : (x y : ℕ) (l : List ℕ) → count y (x ∷ l) ≡ 0 → count y l ≡ 0
tail_out x y l e = ground (arith, e)

here : (x : ℕ) (l : List ℕ) → 1 ≤ count x (x ∷ l)
here x l = ground arith

later : (x y : ℕ) (l : List ℕ) → 1 ≤ count y l → 1 ≤ count y (x ∷ l)
later x y l le = ground (arith, le)

not_out : (x : ℕ) (l : List ℕ) → count x l ≡ 0 → 1 ≤ count x l → ⊥
not_out x l e le = omega (arith, e, le)

same_out : (x t : ℕ) (l : List ℕ) → some x ≡ some t → count x l ≡ 0 → count t l ≡ 0
same_out x t l e out = let same : x ≡ t = ground (arith, e) in subst (λ k. count k l ≡ 0) same out

beside : (b y : ℕ) (bs : List ℕ) → count b (b ∷ bs) ≤ 1 → 1 ≤ count y bs → some b ≢ some y
beside b y bs once le e = not_out y bs (same_out b y bs e (head_out b bs once)) le

-- The links of the nodes behind the removed one.
behind_linked :
    (h : Store) (p : Option ℕ) (n : ℕ) (bs : List ℕ)
    → IsLinked h p (n ∷ bs)
    → ((m : ℕ) → count m (n ∷ bs) ≤ 1)
    → ((t : ℕ) → p ≡ some t → count t (n ∷ bs) ≡ 0)
    → IsLinked (without h p (head_of bs) n) p bs
behind_linked h p n [] k once out = tt
behind_linked h p n (b ∷ bs) (pre, next, (bpre, bnext, rest)) once out =
    let nb : (y : ℕ) → 1 ≤ count y (b ∷ bs) → y ≢ n =
      λ y le. apart (b ∷ bs) n y (head_out n (b ∷ bs) (once n)) le in
    let np : (y : ℕ) → 1 ≤ count y (b ∷ bs) → p ≢ some y =
      λ y le e. not_out y (b ∷ bs) (tail_out n y (b ∷ bs) (out y e)) le in
    let nh : (y : ℕ) → 1 ≤ count y bs → some b ≢ some y =
      λ y le. beside b y bs (tail_once n b (b ∷ bs) (once b)) le in
    (
      without-pre_at h n b (nb b (here b bs)) p,
      without-next h n b (nb b (here b bs)) p (some b) (np b (here b bs)) ∙ bnext,
      IsLinked-frame h (without h p (some b) n) (some b) bs
          (λ y le.
            without-same h n y (nb y (later b y bs le)) p (some b) (np y (later b y bs le))
              (nh y le))
          rest,
    )

next_without :
    (h : Store) (a : ℕ) (xs : List ℕ) (n : ℕ) (bs : List ℕ)
    → Elsewhere a xs n bs
    → (h a).next ≡ head_of (xs ++ (n ∷ bs))
    → (without h (prev (some a) xs) (head_of bs) n a).next ≡ head_of (xs ++ bs)
next_without h a [] n bs o e = without-next_at h n a o.other (head_of bs)
next_without h a (c ∷ xs) n bs o e =
    without-next h n a o.other (prev (some c) xs) (head_of bs)
      (some_apart (c ∷ xs) a (prev (some c) xs) o.before (prev_count c xs))
    ∙ e

pub IsLinked-without :
    (h : Store) (xs : List ℕ) (p : Option ℕ) (n : ℕ) (bs : List ℕ)
    → IsLinked h p (xs ++ (n ∷ bs))
    → ((m : ℕ) → count m (xs ++ (n ∷ bs)) ≤ 1)
    → ((t : ℕ) → p ≡ some t → count t (xs ++ (n ∷ bs)) ≡ 0)
    → IsLinked (without h (prev p xs) (head_of bs) n) p (xs ++ bs)
IsLinked-without h [] p n bs k once out = behind_linked h p n bs k once out
IsLinked-without h (a ∷ xs) p n bs (pre, next, rest) once out =
    let aout = head_out a (xs ++ (n ∷ bs)) (once a) in
    let o = append-Elsewhere a xs n bs aout in
    (
      without-pre h n a o.other (prev (some a) xs) (head_of bs)
            (some_apart bs a (head_of bs) o.behind (head_count bs))
          ∙ pre,
      next_without h a xs n bs o next,
      IsLinked-without h xs (some a) n bs rest (λ m. tail_once a m (xs ++ (n ∷ bs)) (once m))
          (λ t e. same_out a t (xs ++ (n ∷ bs)) e aout),
    )
