-- ===== src/Pmm/Log.antt =====
-- What the operations append to the output.
use oronyx.Base.{ℕ, zero, suc, ◌+◌, ◌-◌, ◌*◌, ◌≡◌, refl, sym, arith, true, false, ◌&&◌, u64, sub64}
use oronyx.Base.{Option, none, some, List, [], ◌∷◌, ◌++◌, ◌>>=◌, ◌==◌, leb, update}
use oronyx.Base.{Bool-cases, inl, inr}
use mathlib.Core.List.{append-nil, append_assoc}
use oronyx.Regions.{Region, load, store, sort, merge_from, shift_up, page_size, max_regions}
use oronyx.Pmm.{State, Entry, Print, putln, write_line, print, region_line, collect, init}
use oronyx.Pmm.{print_regions_from, print_regions, take_region, alloc_from, alloc_pages}
use oronyx.Pmm.{aligned_base, aligned_end}

-- A result is a step that succeeded and the rest from its value.
pub >>=-cases {ℓ κ μ} :
    {A : Type ℓ} {B : Type κ} {P : Type μ} (m : Option A) (f : A → Option B) {b : B}
    → (m >>= f) ≡ some b
    → ((a : A) → m ≡ some a → f a ≡ some b → P)
    → P
>>=-cases none f h next = cc
>>=-cases (some a) f h next = next a refl h

abbrev pub Extends : List Print → List Print → Type 0
Extends old new = (rest : List Print) × (new ≡ old ++ rest)

Extends-refl : (old : List Print) → Extends old old
Extends-refl old = ([], sym (append-nil old))

pub Extends-trans : (a b c : List Print) → Extends a b → Extends b c → Extends a c
Extends-trans a b c (x, e) (y, f) = (x ++ y, rw (f, e) (append_assoc a x y))

taken : Entry → Region
taken e = record {
  base = aligned_base e;
  len = sub64 (aligned_end e) (aligned_base e);
  is_free = true;
}

collect-log : (es : List Entry) (s t : State) → collect es s ≡ some t → t.log ≡ s.log
unfolding collect taken
collect-log [] s t h = cc
collect-log (e ∷ es) s t h = ground (
  arith,
  collect-log es s t,
  collect-log es
      (record s {
        regions = update s.regions s.region_count (taken e);
        region_count = u64 (s.region_count + 1);
      })
      t,
)

print_regions_from-log :
    (k i : ℕ) (s t : State) → print_regions_from k i s ≡ some t → Extends s.log t.log
unfolding print_regions_from
print_regions_from-log zero i s t h = ([], cc (append-nil s.log))
print_regions_from-log (suc k) i s t h = >>=-cases (load s.regions i) _ h (λ r e f.
    Extends-trans s.log (s.log ++ region_line i r) t.log (region_line i r, refl)
      (print_regions_from-log k (i + 1) (record s { log = s.log ++ region_line i r }) t f))

printed-log :
    (s t : State)
    → (print_regions s >>= λ u. some (print (write_line "PMM initialized") u)) ≡ some t
    → Extends (s.log ++ (putln "Physical Memory Regions:" ∷ [])) t.log
unfolding print_regions
printed-log s t h = >>=-cases (print_regions s) _ h (λ u p last.
    Extends-trans (s.log ++ (putln "Physical Memory Regions:" ∷ [])) u.log t.log
      (print_regions_from-log s.region_count 0 (print (putln "Physical Memory Regions:") s) u p)
      (write_line "PMM initialized" ∷ [], cc))

pub init-log :
    (es : List Entry) (offset : ℕ) (s t : State)
    → init (some es) offset s ≡ some t
    → Extends (s.log ++ (putln "Physical Memory Regions:" ∷ [])) t.log
unfolding init
init-log es offset s t h =
    >>=-cases (collect es (record s { hhdm_offset = offset })) _ h (λ s' c h'.
      >>=-cases (sort s'.region_count s'.regions) _ h' (λ a _ i.
        >>=-cases (merge_from (s'.region_count + 1) 0 s'.region_count a) _ i (λ m _ j.
          rw (sym (collect-log es (record s { hhdm_offset = offset }) s' c))
            (printed-log (record s' { regions = m.1; region_count = m.0 }) t j))))

take_region-log :
    (sz i : ℕ) (r : Region) (s t : State) (p : ℕ)
    → take_region sz i r s ≡ some (p, t)
    → Extends s.log t.log
unfolding take_region
take_region-log sz i r s t p h = elim (Bool-cases (r.len == sz)) [
  | inl same ↦
      >>=-cases (store s.regions i (record r { is_free = false })) _ (rw same at h)
        (λ a _ e. ([], cc (append-nil s.log)))
  | inr other ↦ elim (Bool-cases (leb max_regions s.region_count)) [
    | inl full ↦ (putln "PMM: No space for new region!" ∷ [], cc (rw (other, full) at h))
    | inr room ↦
        >>=-cases (shift_up (s.region_count - (i + 1)) s.region_count s.regions) _
          (rw (other, room) at h)
          (λ a _ e.
            >>=-cases
              (store a (i + 1)
                (record { base = u64 (r.base + sz); len = sub64 r.len sz; is_free = true }))
              _ e
              (λ b _ f.
                >>=-cases (store b i (record r { len = sz; is_free = false })) _ f
                  (λ c _ g. ([], cc (append-nil s.log)))))
  ]
]

alloc_from-log :
    (sz k i : ℕ) (s t : State) (p : ℕ) → alloc_from sz k i s ≡ some (p, t) → Extends s.log t.log
unfolding alloc_from
alloc_from-log sz zero i s t p h = (putln "PMM: No suitable region found!" ∷ [], cc)
alloc_from-log sz (suc k) i s t p h = >>=-cases (load s.regions i) _ h (λ r _ e.
    elim (Bool-cases (r.is_free && leb sz r.len)) [
      | inl fit ↦ take_region-log sz i r s t p (rw fit at e)
      | inr other ↦ alloc_from-log sz k (i + 1) s t p (rw other at e)
    ])

pub alloc_pages-log :
    (count : ℕ) (s t : State) (p : ℕ) → alloc_pages count s ≡ some (p, t) → Extends s.log t.log
unfolding alloc_pages
alloc_pages-log count s t p h = alloc_from-log (u64 (count * page_size)) s.region_count 0 s t p h
