-- ===== src/Cpu/Irq/Gates.antt =====
-- The table of gates and the masks behind `irq_init` of kernel/cpu/irq.c.
use wjos.Common.{
  ℕ, zero, suc, ◌+◌, ◌-◌, ◌<◌, ◌≤◌, ◌≡◌, refl, ap, sym, ◌∙◌, subst, inl, inr, Bool, true, false,
  not, ◌&&◌, ◌||◌, arith, ltb, leb, List, [], ◌∷◌, ◌==◌, ==_iff, Bool-cases, if◌then◌else◌, All,
  check_below, check_below_sound,
}
use wjos.Cpu.Irq.{
  Pic, Idt, GateDesc, interrupt_gate, irq_install, install_all, unknown_all, exceptions, pic_init,
  irq_init,
}
use wjos.Cpu.Irq.Masks.{is_enabled}

abbrev pub has : ℕ → List ℕ → Bool
has i [] = false
has i (n ∷ ns) = (i == n) || has i ns

module _ (handler : ℕ → ℕ) where
  installed :
      (idt : Idt) (n i : ℕ)
      → n < 128
      → (irq_install idt n (handler n)).1 i ≡ (if i == n then interrupt_gate (handler i) else idt i)
  unfolding irq_install
  installed idt n i lt = elim (Bool-cases (i == n)) [
    | inl e ↦ rw (not_above n lt, e) (ap (λ k. interrupt_gate (handler k)) (sym ((==_iff i n).0 e)))
    | inr e ↦ rw (not_above n lt, e) refl
  ]
    where
      not_above : (n : ℕ) → n < 128 → leb 128 n ≡ false
      not_above n lt = ground (arith, lt)

  install_all_lem :
      (ns : List ℕ) (idt : Idt) (i : ℕ)
      → All (λ n. n < 128) ns
      → install_all handler ns idt i ≡ (if has i ns then interrupt_gate (handler i) else idt i)
  unfolding install_all
  install_all_lem [] idt i small = refl
  install_all_lem (n ∷ ns) idt i (lt, small) =
      install_all_lem ns (irq_install idt n (handler n)).1 i small
      ∙ ap (λ g. if has i ns then interrupt_gate (handler i) else g) (installed idt n i lt)
      ∙ either (i == n) (has i ns) (interrupt_gate (handler i)) (idt i)
    where
      either :
          (a b : Bool) (x y : GateDesc)
          → (if b then x else if a then x else y) ≡ (if a || b then x else y)
      either true true x y = refl
      either true false x y = refl
      either false true x y = refl
      either false false x y = refl

unknown_all_lem :
    (unknown n : ℕ) (idt : Idt) (i : ℕ)
    → i < n
    → unknown_all unknown n idt i ≡ interrupt_gate unknown
unfolding unknown_all
unknown_all_lem unknown zero idt i lt = absurd (omega (arith, lt))
unknown_all_lem unknown (suc n) idt i lt = elim (Bool-cases (i == n)) [
  | inl e ↦ rw e refl
  | inr e ↦ rw e (unknown_all_lem unknown n idt i (ground (arith, lt, e)))
]

abbrev all_small : List ℕ → Bool
all_small [] = true
all_small (n ∷ ns) = ltb n 128 && all_small ns

all_small_sound : (ns : List ℕ) → all_small ns ≡ true → All (λ n. n < 128) ns
all_small_sound [] e = tt
all_small_sound (n ∷ ns) e =
    (first n (all_small ns) e, all_small_sound ns (second n (all_small ns) e))
  where
    first : (n : ℕ) (b : Bool) → (ltb n 128 && b) ≡ true → n < 128
    first n b e = ground (arith, e)

    second : (n : ℕ) (b : Bool) → (ltb n 128 && b) ≡ true → b ≡ true
    second n b e = ground (arith, e)

abbrev agree : Bool → Bool → Bool
agree true b = b
agree false b = not b

agree_sound : (a b : Bool) → agree a b ≡ true → a ≡ b
agree_sound true true e = refl
agree_sound true false e = sym e
agree_sound false true e = e
agree_sound false false e = refl

cascade :
    (pic : Pic)
    → check_below 16 (λ k. agree (is_enabled (pic_init pic) (0x20 + k)) (0x20 + k == 0x22)) ≡ true
unfolding check_below pic_init
cascade pic = refl

gate_if :
    (b : Bool) (x y : ℕ)
    → (if b then interrupt_gate x else interrupt_gate y) ≡ interrupt_gate (if b then x else y)
gate_if true x y = refl
gate_if false x y = refl

-- After irq_init each of the 128 gates has the handler of its exception, or else that of an unknown
-- interrupt, and of the controllers' lines only the one of the second controller is enabled.
irq_init-gates :
    (unknown : ℕ) (handler : ℕ → ℕ) (idt : Idt) (pic : Pic) (i line : ℕ)
    → i < 128
    → 0x20 ≤ line
    → line < 0x30
    → ((irq_init unknown handler (idt, pic)).0 i
        ≡ interrupt_gate (if has i exceptions then handler i else unknown))
      × (is_enabled (irq_init unknown handler (idt, pic)).1 line ≡ (line == 0x22))
unfolding irq_init
irq_init-gates unknown handler idt pic i line lt lo hi =
    let there : 0x20 + (line - 0x20) ≡ line = omega arith in
    (
      install_all_lem handler exceptions (unknown_all unknown 128 idt) i
            (all_small_sound exceptions refl)
          ∙ ap (λ g. if has i exceptions then interrupt_gate (handler i) else g)
              (unknown_all_lem unknown 128 idt i lt)
          ∙ gate_if (has i exceptions) (handler i) unknown,
      subst (λ l. is_enabled (pic_init pic) l ≡ (l == 0x22)) there
          (agree_sound _ _ (check_below_sound 16 _ (line - 0x20) (cascade pic) (omega arith))),
    )
