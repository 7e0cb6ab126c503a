-- ===== src/Pmm/Total.antt =====
-- `PMM::get_free_memory`, and its value after a grant and a release.
use oronyx.Base.{ℕ, zero, suc, ◌+◌, ◌*◌, ◌^◌, ◌<◌, ◌≡◌, refl, arith, ◌∙◌, ap, sym, some}
use oronyx.Base.Sums.{sum}
use oronyx.Regions.{load, page_size}
use oronyx.Regions.Order.{free_len, sum-free_len-le, holds_free}
use oronyx.Pmm.{State, total_from, get_free_memory, free_pages}
use oronyx.Pmm.Alloc.{IsValid, IsGranted}
use oronyx.Pmm.Joins.{Touching}
use oronyx.Pmm.Free.{free_pages-IsFreed}

total_from_lem :
    (k i : ℕ) (s : State)
    → IsValid s
    → i + k ≡ s.region_count
    → total_from k i (sum free_len s.regions i) s ≡ some (sum free_len s.regions s.region_count)
unfolding total_from
total_from_lem zero i s t e = let e' : i ≡ s.region_count = omega arith in rw e' refl
total_from_lem (suc k) i s t e =
    let e' : i + 1 ≡ suc i = omega arith in
    let loaded : load s.regions i ≡ some (s.regions i) = ground (arith, t.count_in) in
    let small : sum free_len s.regions (suc i) < 2 ^ 64 = omega (
      arith,
      sum-free_len-le i s.regions (λ q l. t.apart q (omega arith)),
      t.inside i (omega arith),
    ) in
    ground (arith, loaded, e', small, total_from_lem k (suc i) s t (omega arith))

-- In a valid state the sum does not wrap: it is the number of free bytes.
pub get_free_memory_lem :
    (s : State) → IsValid s → get_free_memory s ≡ some (sum free_len s.regions s.region_count)
unfolding get_free_memory
get_free_memory_lem s t = total_from_lem s.region_count 0 s t (omega arith)

-- A region that was granted can be freed at its address, and the free memory is then what it was
-- before the grant. If its free neighbours touch it, the same addresses are free.
pub free_pages-IsGranted :
    (count p : ℕ) (s s' : State)
    → IsValid s
    → count * page_size < 2 ^ 64
    → (g : IsGranted (count * page_size) s p s')
    → (s'' : State) × (free_pages p count s' ≡ some s'')
      × (get_free_memory s'' ≡ get_free_memory s)
      × (Touching g.place s'
          → (x : ℕ)
          → sum (holds_free x) s''.regions s''.region_count
            ≡ sum (holds_free x) s.regions s.region_count)
free_pages-IsGranted count p s s' t small g =
    let (s'', run, f) =
      free_pages-IsFreed p count g.place s' g.table small
        (record { below = g.in_table; range = g.used }) in
    (
      s'',
      run,
      get_free_memory_lem s'' f.valid
          ∙ ap some (omega (arith, f.more, g.less))
          ∙ sym (get_free_memory_lem s t),
      λ c x. omega (arith, (f.same_holds c x).1, g.taken x),
    )
