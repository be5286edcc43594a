-- ===== src/Memory/Copy/Cleared.antt =====
-- The pages that a step of kernel/core/memory.c gives back to the allocator.
use wjos.Common.{
  ℕ, ◌+◌, ◌*◌, ◌<◌, ◌≡◌, refl, ◌⊎◌, inl, inr, Bool, true, false, arith, if◌then◌else◌, ap, ◌∙◌, sym,
  subst,
}
use wjos.Bitmap.{get_bit}
use wjos.Memory.Alloc.{AddrAlloc, mem_page_size, addr_free_page}
use wjos.Memory.Alloc.Pages.{IsValid, page_addr, addr_free_page-clears, addr_free_page-keeps}

-- A page of the allocator's.
abbrev pub IsInPool : AddrAlloc → ℕ → Type 0
IsInPool a addr = (i : ℕ) × (i < a.bitmap.bit_count) × (addr ≡ page_addr a i)

-- Of two allocators, the second has exactly the pages at the addresses of `P` free, beside those
-- that the first has free.
pub record Cleared (P : ℕ → Type 0) (a a' : AddrAlloc) : Type 0 where
  pub valid : IsValid a'
  pub start : a'.start ≡ a.start
  pub count : a'.bitmap.bit_count ≡ a.bitmap.bit_count
  pub gone : (p : ℕ) → p < a.bitmap.bit_count → P (page_addr a p) → get_bit a'.bitmap p ≡ 0
  pub stays : (p : ℕ) → get_bit a.bitmap p ≡ 0 → get_bit a'.bitmap p ≡ 0
  pub kept :
      (p : ℕ)
      → p < a.bitmap.bit_count
      → ¬ P (page_addr a p)
      → get_bit a'.bitmap p ≡ get_bit a.bitmap p

pub nothing-Cleared :
    {P : ℕ → Type 0} (a : AddrAlloc) → IsValid a → ((x : ℕ) → ¬ P x) → Cleared P a a
nothing-Cleared a v never = record {
  valid = v;
  start = refl;
  count = refl;
  gone = λ p lt h. absurd (never (page_addr a p) h);
  stays = λ p h. h;
  kept = λ p lt h. refl;
}

pub Cleared-same :
    {P Q : ℕ → Type 0} (a b : AddrAlloc)
    → ((x : ℕ) → P x → Q x)
    → ((x : ℕ) → Q x → P x)
    → Cleared P a b
    → Cleared Q a b
Cleared-same a b to from k = record {
  valid = k.valid;
  start = k.start;
  count = k.count;
  gone = λ p lt h. k.gone p lt (from (page_addr a p) h);
  stays = k.stays;
  kept = λ p lt h. k.kept p lt (λ x. h (to (page_addr a p) x));
}

pub Cleared-trans :
    {P Q : ℕ → Type 0} (a b c : AddrAlloc)
    → Cleared P a b
    → Cleared Q b c
    → Cleared (λ x. P x ⊎ Q x) a c
Cleared-trans {P} {Q} a b c k l =
    let at_b : (p : ℕ) → page_addr b p ≡ page_addr a p =
      λ p. ap (λ s. s + p * mem_page_size) k.start in
    record {
      valid = l.valid;
      start = l.start ∙ k.start;
      count = l.count ∙ k.count;
      gone = λ p lt h. elim h [
        | inl x ↦ l.stays p (k.gone p lt x)
        | inr y ↦ l.gone p (omega (arith, lt, k.count)) (subst Q (sym (at_b p)) y)
      ];
      stays = λ p h. l.stays p (k.stays p h);
      kept = λ p lt h.
          l.kept p (omega (arith, lt, k.count)) (λ y. h (inr (subst Q (at_b p) y)))
          ∙ k.kept p lt (λ x. h (inl x));
    }

pub addr_free_page-Cleared :
    (a : AddrAlloc) (addr : ℕ)
    → IsValid a
    → IsInPool a addr
    → Cleared (λ x. x ≡ addr) a (addr_free_page a addr 1)
addr_free_page-Cleared a addr v (i, lt, e) =
    subst (λ x. Cleared (λ y. y ≡ x) a (addr_free_page a x 1)) (sym e)
      (let (valid, bits) = addr_free_page-clears a v i lt in
        let (start, count) = addr_free_page-keeps a v (page_addr a i) 1 in
        record {
          valid = valid;
          start = start;
          count = count;
          gone = λ p below h. bits p ∙ ground (arith, h);
          stays = λ p h. bits p ∙ ground (arith, h);
          kept = λ p below h. bits p ∙ ground (arith, h);
        })

abbrev pub Maybe : Bool → (ℕ → Type 0) → ℕ → Type 0
Maybe b P x = (b ≡ true) × P x

pub if-Cleared :
    {P : ℕ → Type 0} (b : Bool) (a a' : AddrAlloc)
    → IsValid a
    → (b ≡ true → Cleared P a a')
    → Cleared (Maybe b P) a (if b then a' else a)
if-Cleared true a a' v k = Cleared-same a a' (λ x h. (refl, h)) (λ x h. h.1) (k refl)
if-Cleared false a a' v k = nothing-Cleared a v (λ x h. cc h.0)
