-- ===== src/Fat/Chain.antt =====
-- `cluster_free_chain` over the chain of a file.
use wjos.Common.{
  ℕ, zero, suc, ◌+◌, ◌*◌, ◌/◌, ◌%◌, ◌<◌, ◌≡◌, refl, Bool, true, false, ◌||◌, List, [], ◌∷◌, arith,
  ◌==◌, if◌then◌else◌, ap, ◌∙◌, length,
}
use wjos.Fat.{
  Fat, bread_sector, cluster_is_valid, get16, fat_cluster_free, cluster_get_next, cluster_set_next,
  cluster_free_chain,
}
use wjos.Fat.Table.{
  IsSound, HasEntry, SameShape, next_of, cluster_get_next-next_of, bread_sector-disk,
  bread_sector-IsSound, bread_sector-SameShape,
}
use wjos.Fat.Link.{cluster_set_next-Linked}

abbrev pub has : ℕ → List ℕ → Bool
has d [] = false
has d (c ∷ cs) = (d == c) || has d cs

-- From `start` the links lead through the distinct clusters `cs` to a value that ends the chain.
abbrev pub IsChain : Fat → ℕ → List ℕ → Type 0
IsChain fat start [] = cluster_is_valid start ≡ false
IsChain fat start (c ∷ cs) =
    (start ≡ c) × HasEntry fat c × (has c cs ≡ false) × IsChain fat (next_of fat c) cs

-- What freeing the clusters `cs` does.
pub record Freed (fat : Fat) (cs : List ℕ) (fat' : Fat) : Type 0 where
  pub sound : IsSound fat'
  pub shape : SameShape fat fat'
  pub links :
      (d : ℕ)
      → HasEntry fat d
      → next_of fat' d ≡ (if has d cs then fat_cluster_free else next_of fat d)

-- A chain stays one under a change that spares its clusters.
IsChain-frame :
    (fat fat' : Fat) (start : ℕ) (cs : List ℕ)
    → SameShape fat fat'
    → ((d : ℕ) → HasEntry fat d → has d cs ≡ true → next_of fat' d ≡ next_of fat d)
    → IsChain fat start cs
    → IsChain fat' start cs
IsChain-frame fat fat' start [] shape same h = h
IsChain-frame fat fat' start (c ∷ cs) shape same (e, entry, out, rest) = (
  e,
  record { valid = entry.valid; in_table = omega (arith, entry.in_table, shape.tbl_sectors) },
  out,
  rw (same c entry (ground arith))
      (IsChain-frame fat fat' (next_of fat c) cs shape (λ d hd i. same d hd (ground arith)) rest),
)

-- A state whose links are those of `fat`, as after a read.
pub record SameLinks (fat fat' : Fat) : Type 0 where
  pub sound : IsSound fat'
  pub shape : SameShape fat fat'
  pub links : (d : ℕ) → next_of fat' d ≡ next_of fat d

pub bread_sector-SameLinks :
    (fat : Fat) (k : ℕ) → IsSound fat → SameLinks fat (bread_sector fat k).1
bread_sector-SameLinks fat k s =
    let shape = bread_sector-SameShape fat s k in
    record {
      sound = bread_sector-IsSound fat s k;
      shape = shape;
      links = λ d.
          ap (λ (x : ℕ). get16 ((bread_sector fat k).1.disk (x + d * 2 / 512)) (d * 2 % 512))
            shape.tbl_start
          ∙ ap (λ (g : ℕ → List ℕ). get16 (g (fat.tbl_start + d * 2 / 512)) (d * 2 % 512))
              (bread_sector-disk fat s k);
    }

pub HasEntry-shape :
    (fat fat' : Fat) (d : ℕ) → SameShape fat fat' → HasEntry fat d → HasEntry fat' d
HasEntry-shape fat fat' d shape h = record {
  valid = h.valid;
  in_table = omega (arith, h.in_table, shape.tbl_sectors);
}

SameShape-trans : (a b c : Fat) → SameShape a b → SameShape b c → SameShape a c
SameShape-trans a b c p q = record {
  tbl_start = q.tbl_start ∙ p.tbl_start;
  tbl_sectors = q.tbl_sectors ∙ p.tbl_sectors;
  tbl_cnt = q.tbl_cnt ∙ p.tbl_cnt;
}

module _ (fat : Fat) (s : IsSound fat) (c : ℕ) (h : HasEntry fat c) where
  -- The state after one round.
  abbrev round : Fat
  round = (cluster_set_next (cluster_get_next fat c).1 c fat_cluster_free).1

  after_read : SameLinks fat (cluster_get_next fat c).1
  after_read =
      rw (cluster_get_next-next_of fat s c h).1
        (bread_sector-SameLinks fat (fat.tbl_start + c * 2 / 512) s)

  round-Freed : Freed fat (c ∷ []) round
  round-Freed =
      let fat1 = (cluster_get_next fat c).1 in
      let out =
        (cluster_set_next-Linked fat1 after_read.sound c fat_cluster_free
          (HasEntry-shape fat fat1 c after_read.shape h)).1 in
      record {
        sound = out.sound;
        shape = SameShape-trans fat fat1 round after_read.shape out.shape;
        links = λ d hd. ground (
          arith,
          out.links d (HasEntry-shape fat fat1 d after_read.shape hd),
          after_read.links d,
        );
      }

-- With no failing sector and more fuel than the chain has clusters, `cluster_free_chain` frees
-- exactly the clusters of the chain: every other link of the table is as before.
pub cluster_free_chain-Freed :
    (fuel : ℕ) (fat : Fat) (start : ℕ) (cs : List ℕ)
    → IsSound fat
    → IsChain fat start cs
    → length cs < fuel
    → Freed fat cs (cluster_free_chain fuel fat start)
unfolding cluster_free_chain
cluster_free_chain-Freed zero fat start cs s chain f = absurd (omega arith)
cluster_free_chain-Freed (suc fuel) fat start [] s chain f =
    rw (chain, if◌then◌else◌)
      (record {
        sound = s;
        shape = record { tbl_start = refl; tbl_sectors = refl; tbl_cnt = refl };
        links = λ d h. refl;
      })
cluster_free_chain-Freed (suc fuel) fat start (c ∷ cs) s (e, entry, out, rest) f =
    let next = (cluster_get_next-next_of fat s c entry).0 in
    let one = round-Freed fat s c entry in
    let after =
      IsChain-frame fat (round fat s c entry) (next_of fat c) cs one.shape
        (λ d hd i. ground (arith, one.links d hd)) rest in
    let later =
      cluster_free_chain-Freed fuel (round fat s c entry) (next_of fat c) cs one.sound after
        (omega arith) in
    rw (e, entry.valid, if◌then◌else◌, next)
      (record {
        sound = later.sound;
        shape = SameShape-trans fat (round fat s c entry) _ one.shape later.shape;
        links = λ d hd. ground (
          arith,
          later.links d (HasEntry-shape fat (round fat s c entry) d one.shape hd),
          one.links d hd,
        );
      })
