-- ===== src/Pmm/History/Kept.antt =====
-- What holds of the table after calls of `alloc_pages` and `free_pages`, and that each call keeps it.
use oronyx.Base.{◌≤◌, ◌∙◌, ℕ, ◌+◌, ◌-◌, ◌*◌, ◌<◌, ◌≡◌, refl, arith}
use oronyx.Base.{List, [], ◌∷◌, true, ◌==◌, ◌&&◌, if◌then◌else◌}
use oronyx.Base.Sums.{sum, sum-zero, sum_pos}
use oronyx.Regions.{page_size}
use oronyx.Regions.Order.{holds, free_len, used_by}
use oronyx.Pmm.{State, Print}
use oronyx.Pmm.Alloc.{IsValid, IsMapped, IsPlaced, IsTiled, IsGranted}
use oronyx.Pmm.Joins.{Touching}
use oronyx.Pmm.Free.{IsUsed, IsFreed}
use oronyx.Pmm.History.{Block, Removes, total_of, bytes_of, total_of-Removes}

-- The regions have no gap, and hold the addresses of the regions of `s0`.
pub record IsWhole (s0 s : State) : Type 0 where
  pub tiled : IsTiled s
  pub same :
      (x : ℕ) → sum (holds x) s.regions s.region_count ≡ sum (holds x) s0.regions s0.region_count

-- The used regions are the held blocks, and no byte is lost.
pub record IsKept (s0 s : State) (held : List Block) : Type 0 where
  pub valid : IsValid s
  pub mapped : IsMapped s
  pub placed : IsPlaced s
  pub used : (g : ℕ → ℕ → ℕ) → sum (used_by g) s.regions s.region_count ≡ total_of g held
  pub bytes :
      sum free_len s.regions s.region_count + bytes_of held
      ≡ sum free_len s0.regions s0.region_count
  pub whole : IsTiled s0 → IsWhole s0 s

-- A state in which all memory is free.
pub record IsUnused (s : State) : Type 0 where
  pub valid : IsValid s
  pub mapped : IsMapped s
  pub placed : IsPlaced s
  pub free : (i : ℕ) → i < s.region_count → (s.regions i).is_free ≡ true

pub start-IsKept : (s : State) → IsUnused s → IsKept s s []
start-IsKept s t = record {
  valid = t.valid;
  mapped = t.mapped;
  placed = t.placed;
  used = λ g. sum-zero (used_by g) s.regions s.region_count (λ m h. ground (arith, t.free m h));
  bytes = omega arith;
  whole = λ c. record { tiled = c; same = λ x. refl };
}

pub granted-IsKept :
    (s0 s u : State) (held : List Block) (p count : ℕ)
    → IsKept s0 s held
    → IsGranted (count * page_size) s p u
    → IsKept s0 u ((p, count) ∷ held)
granted-IsKept s0 s u held p count k g = record {
  valid = g.table;
  mapped = g.mapped;
  placed = g.placed k.placed;
  used = λ f. omega (arith, g.used_more f, k.used f);
  bytes = omega (arith, g.less, k.bytes);
  whole = λ c. record {
    tiled = g.tiled (k.whole c).tiled;
    same = λ x. g.same_held x ∙ (k.whole c).same x;
  };
}

abbrev is_block : ℕ → ℕ → ℕ → ℕ → ℕ
is_block p size q l = if q == p && l == size then 1 else 0

-- A held block is a used region.
pub held-IsUsed :
    (s : State) (held rest : List Block) (p count : ℕ)
    → ((g : ℕ → ℕ → ℕ) → total_of g held ≤ sum (used_by g) s.regions s.region_count)
    → Removes (p, count) held rest
    → (i : ℕ) × IsUsed p (count * page_size) i s
held-IsUsed s held rest p count used r =
    let size = count * page_size in
    let one : 0 < sum (used_by (is_block p size)) s.regions s.region_count =
      ground (arith, used (is_block p size), total_of-Removes (is_block p size) p count r) in
    let (i, below, own) = sum_pos (used_by (is_block p size)) s.regions s.region_count one in
    (i, record { below = below; range = ground arith })

pub tiled-Touching : (s : State) (i : ℕ) → i < s.region_count → IsTiled s → Touching i s
tiled-Touching s i below c = record {
  before = λ p f. ground (arith, c (i - 1));
  after = λ p f. ground (arith, c i);
}

pub freed-IsKept :
    (s0 s u : State) (held rest : List Block) (p count i : ℕ)
    → IsKept s0 s held
    → Removes (p, count) held rest
    → i < s.region_count
    → IsFreed p (count * page_size) i s u
    → IsKept s0 u rest
freed-IsKept s0 s u held rest p count i k r below f = record {
  valid = f.valid;
  mapped = f.mapped k.mapped;
  placed = f.placed k.placed;
  used = λ g. omega (arith, f.used_less g, k.used g, total_of-Removes g p count r);
  bytes = omega (arith, f.more, k.bytes, total_of-Removes (λ q size. size) p count r);
  whole = λ c. record {
    tiled = f.tiled (k.whole c).tiled;
    same =
        λ x. (f.same_holds (tiled-Touching s i below (k.whole c).tiled) x).0 ∙ (k.whole c).same x;
  };
}

pub printed-IsKept :
    (s0 s : State) (held : List Block) (log : List Print)
    → IsKept s0 s held
    → IsKept s0 (record s { log = log }) held
printed-IsKept s0 s held log k = record {
  valid = k.valid;
  mapped = k.mapped;
  placed = k.placed;
  used = k.used;
  bytes = k.bytes;
  whole = λ c. record { tiled = (k.whole c).tiled; same = (k.whole c).same };
}
