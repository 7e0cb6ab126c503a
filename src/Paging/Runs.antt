-- ===== src/Paging/Runs.antt =====
-- Calls of `map_page` one after the other, from a first table without entries.
use oronyx.Base.{ℕ, zero, suc, ◌+◌, ◌%◌, ◌^◌, ◌≤◌, ◌<◌, ◌≡◌, ◌≢◌, ◌⊎◌, refl, sym, ◌∙◌, arith, false}
use oronyx.Base.{List, [], ◌∷◌, Option, none, some, bit_and, inl, inr}
use oronyx.Paging.{State, map_page, huge}
use oronyx.Paging.Tables.{slot, table_of, is_present, translate}
use oronyx.Paging.Fresh.{HasPages, IsReady, IsTaken}
use oronyx.Paging.Empty.{index_of-lt}
use oronyx.Paging.Level.{entry_at, index_at, leads-absent, Reached, Shares, walk, translate-walk}
use oronyx.Paging.Change.{IsSpace}
use oronyx.Paging.Clear.{IsClear}
use oronyx.Paging.Prepare.{IsSame}
use oronyx.Paging.Refine.{remap, IsRemapped, map_page-Remaps}

-- A first table outside free memory, with no entry present.
pub record IsBlank (s : State) : Type 0 where
  pub ready : IsReady s
  pub fits : table_of s s.cr3 + 4096 ≤ 2 ^ 64
  pub taken : (i : ℕ) → i < 512 → IsTaken (slot (table_of s s.cr3) i) s
  pub absent : (i : ℕ) → i < 512 → is_present (slot (table_of s s.cr3) i) s ≡ false

module _ (s : State) (b : IsBlank s) where
  top : ℕ → ℕ
  top v = slot (table_of s s.cr3) (index_at 0 v)

  top_absent : (v : ℕ) → is_present (entry_at 0 v s) s ≡ false
  unfolding entry_at
  top_absent v = b.absent (index_at 0 v) (index_of-lt 39 v)

  only_top : (k v : ℕ) → Reached k v s → k ≡ 0
  only_top zero v r = refl
  only_top (suc k) v (r, ld) =
      let e = only_top k v r in
      absurd (cc (leads-absent 0 (entry_at 0 v s) s (top_absent v), rw e at ld))

  blank_taken : (k v : ℕ) → Reached k v s → IsTaken (entry_at k v s) s
  unfolding entry_at
  blank_taken k v r = rw (only_top k v r) (b.taken (index_at 0 v) (index_of-lt 39 v))

  top_apart : (v w : ℕ) → entry_at 0 v s ≡ entry_at 0 w s → Shares 0 v w
  unfolding entry_at
  top_apart v w e = omega (arith, index_of-lt 39 v, index_of-lt 39 w, b.fits)

  pub blank-IsSpace : IsSpace s
  blank-IsSpace = record {
    ready = b.ready;
    taken = blank_taken;
    apart = λ k l v w r q e.
        let ek = only_top k v r in
        let el = only_top l w q in (ek ∙ sym el, rw ek (top_apart v w (rw (ek, el) at e)));
  }

  pub blank-IsClear : (v : ℕ) → IsClear v s
  blank-IsClear v j h r there = absurd (cc (top_absent v, rw (only_top j v r) at there))

  blank-translate : (v : ℕ) → translate v s ≡ none
  unfolding walk
  blank-translate v = translate-walk v s ∙ (rw (top_absent v) refl)

-- Calls of `map_page` for present small pages, with the function on addresses that they stand for.
-- Whether a call has mapped its page shows in the flushed addresses.
pub data Run (s : State) : State → (ℕ → Option ℕ) → Type 0 where
  start : Run s s (λ v. none)
  mapped :
      {t : State} {f : ℕ → Option ℕ} (virt phys flags : ℕ) (u : State)
      → Run s t f
      → phys < 2 ^ 64
      → flags % 2 ≡ 1
      → bit_and flags huge ≡ 0
      → map_page virt phys flags t ≡ some u
      → u.flushed ≡ virt ∷ t.flushed
      → Run s u (remap 12 virt phys f)
  left :
      {t : State} {f : ℕ → Option ℕ} (virt phys flags : ℕ) (u : State)
      → Run s t f
      → phys < 2 ^ 64
      → flags % 2 ≡ 1
      → bit_and flags huge ≡ 0
      → map_page virt phys flags t ≡ some u
      → u.flushed ≡ t.flushed
      → Run s u f

pub cons_ne_self : (x : ℕ) (l : List ℕ) → x ∷ l ≢ l
cons_ne_self x [] e = cc
cons_ne_self x (y ∷ l) e = cons_ne_self y l (cc)

-- What calls keep from the state `s` on: tables that share no table, ways clear of large pages, and
-- the function that the tables stand for.
pub record Stands (s t : State) (f : ℕ → Option ℕ) : Type 0 where
  pub space : IsSpace t
  pub clear : (v : ℕ) → IsClear v s → IsClear v t
  pub walks : (v : ℕ) → translate v t ≡ f v

pub IsRemapped-Stands :
    (virt phys : ℕ) (s t u : State) (f : ℕ → Option ℕ)
    → Stands s t f
    → ((v : ℕ) → IsClear v t → IsClear v u)
    → IsRemapped 12 virt phys t u
    → Stands s u (remap 12 virt phys f)
IsRemapped-Stands virt phys s t u f st clear r = record {
  space = r.space;
  clear = λ v c. clear v (st.clear v c);
  walks = λ v. r.walks v ∙ (rw (st.walks v) refl);
}

pub IsSame-Stands : (s t u : State) (f : ℕ → Option ℕ) → Stands s t f → IsSame t u → Stands s u f
IsSame-Stands s t u f st r = record {
  space = r.space;
  clear = λ v c. r.same_clear v (st.clear v c);
  walks = λ v. r.same_walks v ∙ st.walks v;
}

pub Run-Stands : {s t : State} {f : ℕ → Option ℕ} → IsBlank s → Run s t f → Stands s t f
Run-Stands {s} b start = record {
  space = blank-IsSpace s b;
  clear = λ v c. c;
  walks = blank-translate s b;
}
Run-Stands {s} b (mapped {t} {f} virt phys flags u run h odd small e flushed) =
    let st = Run-Stands b run in
    let (u', run', clear, outcome) =
      map_page-Remaps virt phys flags t h odd small st.space
        (st.clear virt (blank-IsClear s b virt)) in
    let same : u' ≡ u = cc in
    elim outcome [
      | inl r ↦ rw same at (IsRemapped-Stands virt phys s t u' f st clear r)
      | inr (kept, _) ↦ absurd (cons_ne_self virt t.flushed (cc (kept.same_flushed)))
    ]
Run-Stands {s} b (left {t} {f} virt phys flags u run h odd small e flushed) =
    let st = Run-Stands b run in
    let (u', run', clear, outcome) =
      map_page-Remaps virt phys flags t h odd small st.space
        (st.clear virt (blank-IsClear s b virt)) in
    let same : u' ≡ u = cc in
    elim outcome [
      | inl r ↦ absurd (cons_ne_self virt t.flushed (cc (r.flushed)))
      | inr (kept, _) ↦ rw same at (IsSame-Stands s t u' f st kept)
    ]

-- One more call.
abbrev pub Continues : ℕ → ℕ → ℕ → State → State → (ℕ → Option ℕ) → Type 0
Continues virt phys flags s t f =
    (u : State) × (map_page virt phys flags t ≡ some u)
    × (Run s u (remap 12 virt phys f) ⊎ (Run s u f × ¬ HasPages 3 t))

-- In every run of calls from a first table without entries the walks of all addresses are the
-- function that the run stands for: at each call that mapped a page, the function is changed at that
-- page. The next call of the run never faults, and maps its page if three pages of memory are free,
-- none of them at 0, and the manager has room for three regions more.
Run_refines :
    (virt phys flags : ℕ) {s t : State} {f : ℕ → Option ℕ}
    → IsBlank s
    → Run s t f
    → phys < 2 ^ 64
    → flags % 2 ≡ 1
    → bit_and flags huge ≡ 0
    → ((v : ℕ) → translate v t ≡ f v) × Continues virt phys flags s t f
Run_refines virt phys flags {s} {t} {f} b run h odd small =
    let st = Run-Stands b run in
    let (u, e, clear, outcome) =
      map_page-Remaps virt phys flags t h odd small st.space
        (st.clear virt (blank-IsClear s b virt)) in
    (
      st.walks,
      (
        u,
        e,
        elim outcome [
          | inl r ↦ inl (mapped virt phys flags u run h odd small e r.flushed)
          | inr (kept, few) ↦ inr (left virt phys flags u run h odd small e kept.same_flushed, few)
        ],
      ),
    )
