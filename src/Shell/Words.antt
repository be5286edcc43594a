-- ===== src/Shell/Words.antt =====
-- The parsing of a line in shell/main.c against the string that `pre_exec` of
-- shell/cmd_executor.c makes of its arguments.
use wjos.Common.{
  ℕ, ◌+◌, ◌≤◌, ◌<◌, ◌≡◌, refl, inl, inr, Bool, true, false, not, ◌&&◌, List, [], ◌∷◌, ◌++◌, arith,
  ◌==◌, Bool-cases, All, length, length-append, Option, none, some, leb, if◌then◌else◌, subst,
  append-nil, append_assoc, ap, sym, ◌∙◌,
}
use wjos.Shell.{cut, flush, tokens, parse_arg, arg_string}

-- No space, line feed or carriage return.
abbrev pub is_part : ℕ → Bool
is_part c = not (c == 32) && (not (c == 10) && not (c == 13))

abbrev pub IsText : List ℕ → Type 0
IsText = All (λ c. is_part c ≡ true)

pub record IsWord (w : List ℕ) : Type 0 where
  pub some_char : 0 < length w
  pub chars : IsText w

-- A text is read to the end of the token that has begun.
tokens-text : (word w cs : List ℕ) → IsText w → tokens word (w ++ cs) ≡ tokens (word ++ w) cs
unfolding tokens
tokens-text word [] cs t = rw (append-nil word) refl
tokens-text word (c ∷ w) cs (p, t) =
    let other : (c == 32) ≡ false = ground (arith, p) in
    rw (tokens, other)
      (tokens-text (word ++ (c ∷ [])) w cs t ∙ ap (λ u. tokens u cs) (append_assoc word (c ∷ []) w))

flush-word : (w : List ℕ) → 0 < length w → flush w ≡ w ∷ []
flush-word [] p = absurd (omega (arith, p))
flush-word (c ∷ w) p = refl

tokens-last : (w : List ℕ) → IsWord w → tokens [] w ≡ w ∷ []
unfolding tokens
tokens-last w v =
    ap (λ u. tokens [] u) (sym (append-nil w))
    ∙ tokens-text [] w [] v.chars
    ∙ flush-word w v.some_char

tokens-space : (w rest : List ℕ) → tokens w (32 ∷ rest) ≡ flush w ++ tokens [] rest
unfolding tokens
tokens-space w rest = refl

-- The words that a string was made of are its tokens.
tokens-arg_string : (ws : List (List ℕ)) → All IsWord ws → tokens [] (arg_string ws) ≡ ws
unfolding arg_string tokens
tokens-arg_string [] vs = refl
tokens-arg_string (w ∷ []) (v, vs) = tokens-last w v
tokens-arg_string (w ∷ next ∷ ws) (v, vs) =
    let rest = arg_string (next ∷ ws) in
    tokens-text [] w (32 ∷ rest) v.chars
    ∙ tokens-space w rest
    ∙ ap (λ u. u ++ tokens [] rest) (flush-word w v.some_char)
    ∙ ap (λ u. w ∷ u) (tokens-arg_string (next ∷ ws) vs)

-- Without the end of a line.
abbrev IsLine : List ℕ → Type 0
IsLine = All (λ c. (not (c == 10) && not (c == 13)) ≡ true)

cut-line : (s : List ℕ) → IsLine s → (cut 10 s ≡ s) × (cut 13 s ≡ s)
unfolding cut
cut-line [] l = (refl, refl)
cut-line (c ∷ s) (p, l) =
    let feed : (c == 10) ≡ false = ground (arith, p) in
    let ret : (c == 13) ≡ false = ground (arith, p) in
    (rw feed (ap (λ u. c ∷ u) (cut-line s l).0), rw ret (ap (λ u. c ∷ u) (cut-line s l).1))

cut-IsLine : (s : List ℕ) → IsLine (cut 13 (cut 10 s))
unfolding cut
cut-IsLine [] = tt
cut-IsLine (c ∷ s) = elim (Bool-cases (c == 10)) [
  | inl e ↦ rw e tt
  | inr feed ↦ elim (Bool-cases (c == 13)) [
    | inl e ↦ rw (feed, e) tt
    | inr ret ↦ rw (feed, ret) (rw (feed, ret) refl, cut-IsLine s)
  ]
]

part_of_line :
    (c : ℕ) → (c == 32) ≡ false → (not (c == 10) && not (c == 13)) ≡ true → is_part c ≡ true
part_of_line c space line = rw (space, line) refl

All-snoc : (w : List ℕ) (c : ℕ) → IsText w → is_part c ≡ true → IsText (w ++ (c ∷ []))
All-snoc [] c t p = (p, tt)
All-snoc (x ∷ w) c (q, t) p = (q, All-snoc w c t p)

flush-IsWord :
    (w : List ℕ) (ws : List (List ℕ)) → IsText w → All IsWord ws → All IsWord (flush w ++ ws)
flush-IsWord [] ws t vs = vs
flush-IsWord (c ∷ w) ws t vs = (record { some_char = omega arith; chars = t }, vs)

-- The tokens of a line are words.
tokens-IsWord : (w s : List ℕ) → IsText w → IsLine s → All IsWord (tokens w s)
unfolding tokens
tokens-IsWord w [] t l = rw (sym (append-nil (flush w))) (flush-IsWord w [] t tt)
tokens-IsWord w (c ∷ s) t (p, l) = elim (Bool-cases (c == 32)) [
  | inl e ↦ rw e (flush-IsWord w (tokens [] s) t (tokens-IsWord [] s tt l))
  | inr e ↦ rw e (tokens-IsWord (w ++ (c ∷ [])) s (All-snoc w c t (part_of_line c e p)) l)
]

IsText-IsLine : (w s : List ℕ) → IsText w → IsLine s → IsLine (w ++ s)
IsText-IsLine [] s t l = l
IsText-IsLine (c ∷ w) s (p, t) l = (ground (arith, p), IsText-IsLine w s t l)

arg_string-IsLine : (ws : List (List ℕ)) → All IsWord ws → IsLine (arg_string ws)
unfolding arg_string
arg_string-IsLine [] vs = tt
arg_string-IsLine (w ∷ []) (v, vs) = rw (sym (append-nil w)) (IsText-IsLine w [] v.chars tt)
arg_string-IsLine (w ∷ next ∷ ws) (v, vs) =
    IsText-IsLine w (32 ∷ arg_string (next ∷ ws)) v.chars (refl, arg_string-IsLine (next ∷ ws) vs)

-- Up to ten words are parsed from the string that is made of them.
parse_words :
    (ws : List (List ℕ)) → All IsWord ws → length ws ≤ 10 → parse_arg (arg_string ws) ≡ some ws
unfolding parse_arg
parse_words ws vs few =
    let line = cut-line (arg_string ws) (arg_string-IsLine ws vs) in
    let room : leb (length ws) 10 ≡ true = ground (arith, few) in
    rw (line.0, line.1, tokens-arg_string ws vs, room, if◌then◌else◌) refl

length-cut : (c : ℕ) (s : List ℕ) → length (cut c s) ≤ length s
unfolding cut
length-cut c [] = omega arith
length-cut c (x ∷ s) = ground (arith, length-cut c s)

arg_string_cons :
    (w : List ℕ) (ws : List (List ℕ))
    → length (arg_string (w ∷ ws)) ≤ length w + 1 + length (arg_string ws)
unfolding arg_string
arg_string_cons w [] = omega arith
arg_string_cons w (v ∷ ws) = omega (arith, length-append w (32 ∷ arg_string (v ∷ ws)))

tokens_end : (w : List ℕ) → length (arg_string (flush w)) ≤ length w
unfolding arg_string
tokens_end [] = omega arith
tokens_end (c ∷ w) = omega arith

tokens_flush :
    (w : List ℕ) (ws : List (List ℕ))
    → length (arg_string (flush w ++ ws)) ≤ length w + 1 + length (arg_string ws)
tokens_flush [] ws = omega arith
tokens_flush (c ∷ w) ws = arg_string_cons (c ∷ w) ws

length-arg_string-tokens : (w s : List ℕ) → length (arg_string (tokens w s)) ≤ length w + length s
unfolding tokens
length-arg_string-tokens w [] = omega (arith, tokens_end w)
length-arg_string-tokens w (c ∷ s) = elim (Bool-cases (c == 32)) [
  | inl e ↦ rw e (omega (arith, tokens_flush w (tokens [] s), length-arg_string-tokens [] s))
  | inr e ↦
      rw e (omega (arith, length-append w (c ∷ []), length-arg_string-tokens (w ++ (c ∷ [])) s))
]

-- Of a line with at most ten arguments, the string that goes to the history parses to the same
-- arguments as the line, and is no longer than it, so that it fits in the buffer of the line.
pub parse_arg-arg_string :
    (s : List ℕ) (ws : List (List ℕ))
    → parse_arg s ≡ some ws
    → (parse_arg (arg_string ws) ≡ some ws) × (length (arg_string ws) ≤ length s)
unfolding parse_arg
parse_arg-arg_string s ws e =
    let line = cut 13 (cut 10 s) in
    elim (Bool-cases (leb (length (tokens [] line)) 10)) [
      | inl few ↦
          let same : tokens [] line ≡ ws = some_inj (sym (rw (few, if◌then◌else◌) refl) ∙ e) in
          subst (λ v. (parse_arg (arg_string v) ≡ some v) × (length (arg_string v) ≤ length s)) same
            (
              parse_words (tokens [] line) (tokens-IsWord [] line tt (cut-IsLine s))
                  (ground (arith, few)),
              omega (
                arith,
                length-arg_string-tokens [] line,
                length-cut 13 (cut 10 s),
                length-cut 10 s,
              ),
            )
      | inr many ↦ absurd (ground (arith, e, many))
    ]
  where
    some_inj : {a b : List (List ℕ)} → some a ≡ some b → a ≡ b
    some_inj {a = a} h = ap (λ (o : Option (List (List ℕ))). elim o [ none ↦ a | some x ↦ x ]) h
