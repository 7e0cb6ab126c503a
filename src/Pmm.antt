-- ===== src/Pmm.antt =====
-- mm/pmm.cpp, the physical memory manager, over the array of `Regions`.
pub mod Entries
pub mod Collect
pub mod Init
pub mod Zero
pub mod Alloc
pub mod Grows
pub mod FirstFit
pub mod Join
pub mod Joins
pub mod Free
pub mod Total
pub mod Gap
pub mod Log
pub mod History
pub mod Outcome
mod Tests
use oronyx.Base.{ℕ, zero, suc, ◌+◌, ◌-◌, ◌*◌, ◌/◌, ◌^◌, bit_and, u64, sub64, update}
use oronyx.Base.{true, false, ◌&&◌, Option, none, some, List, [], ◌∷◌, ◌++◌}
use oronyx.Base.{ltb, leb, ◌==◌, if◌then◌else◌, ◌>>=◌}
use Prim.Native.String.{String}
use oronyx.Regions.{Region, Regions, page_size, max_regions, load, store}
use oronyx.Regions.{sort, shift_up, absorb, merge_from}

-- What the manager prints, in order.
pub data Print : Type 0 where
  puts putln write_line : String → Print
  print_int print_hex : ℕ → Print
  endl : Print

-- `memory` holds the 64-bit word at each address.
pub record State : Type 0 where
  pub regions : Regions
  pub region_count : ℕ
  pub hhdm_offset : ℕ
  pub memory : ℕ → ℕ
  pub log : List Print

-- An entry of the boot loader's memory map.
pub record Entry : Type 0 where
  pub base : ℕ
  pub length : ℕ
  pub type : ℕ

abbrev pub memmap_usable : ℕ
memmap_usable = 0

-- `~(PAGE_SIZE - 1)` on `size_t`.
abbrev pub page_mask : ℕ
page_mask = 2 ^ 64 - 1 - (page_size - 1)

abbrev pub print : Print → State → State
print p s = record s { log = s.log ++ (p ∷ []) }

-- The page-aligned range of an entry.
unfoldable pub aligned_base : Entry → ℕ
aligned_base e = bit_and (sub64 (u64 (e.base + page_size)) 1) page_mask

unfoldable pub aligned_end : Entry → ℕ
aligned_end e = bit_and (u64 (e.base + e.length)) page_mask

-- The first loop of `init`, over the entries that are left.
unfoldable pub collect : List Entry → State → Option State
unfolding aligned_base aligned_end
collect [] s = some s
collect (e ∷ es) s =
    let skip = collect es s in
    let take : Option State = (do
      let r : Region = record {
        base = aligned_base e;
        len = sub64 (aligned_end e) (aligned_base e);
        is_free = true;
      }
      a ← store s.regions s.region_count r
      collect es (record s { regions = a; region_count = u64 (s.region_count + 1) })) in
    if ltb s.region_count max_regions
    then (if e.type == memmap_usable && ltb (aligned_base e) (aligned_end e) then take else skip)
    else some s

-- The body of the loop of `print_regions`.
abbrev pub region_line : ℕ → Region → List Print
region_line i r =
    puts "  Region "
    ∷ print_int i
    ∷ puts ": Base=0x"
    ∷ print_hex r.base
    ∷ puts " Len=0x"
    ∷ print_hex r.len
    ∷ puts " "
    ∷ puts (if r.is_free then "Free" else "Used")
    ∷ endl
    ∷ []

-- `print_regions`, with `rounds` left from `i` on.
unfoldable pub print_regions_from : ℕ → ℕ → State → Option State
print_regions_from zero i s = some s
print_regions_from (suc rounds) i s = do
  r ← load s.regions i
  print_regions_from rounds (i + 1) (record s { log = s.log ++ region_line i r })

unfoldable pub print_regions : State → Option State
unfolding print_regions_from
print_regions s = print_regions_from s.region_count 0 (print (putln "Physical Memory Regions:") s)

-- `PMM::init`; no response of the boot loader is a `none`.
unfoldable pub init : Option (List Entry) → ℕ → State → Option State
unfolding collect sort merge_from print_regions
init none offset s = some (print (putln "PMM init failed: no memmap response") s)
init (some entries) offset s = do
  s' ← collect entries (record s { hhdm_offset = offset })
  a ← sort s'.region_count s'.regions
  t ← merge_from (s'.region_count + 1) 0 s'.region_count a
  s'' ← print_regions (record s' { regions = t.1; region_count = t.0 })
  some (print (write_line "PMM initialized") s'')

-- `ptr[j] = 0` for `rounds` values of `j`.
unfoldable pub zero_words : ℕ → ℕ → ℕ → (ℕ → ℕ) → ℕ → ℕ
zero_words zero j ptr memory = memory
zero_words (suc rounds) j ptr memory =
    zero_words rounds (j + 1) ptr (update memory (u64 (ptr + 8 * j)) 0)

-- What `alloc_pages` does with the region `r` at `i` once it fits; `reply` is the returned address.
unfoldable pub take_region : ℕ → ℕ → Region → State → Option (ℕ × State)
unfolding zero_words shift_up
take_region sz i r s =
    let cleared : State → ℕ × State = λ s'. (
      r.base,
      record s' { memory = zero_words (sz / 8) 0 (u64 (r.base + s'.hhdm_offset)) s'.memory },
    ) in
    if r.len == sz
    then (do
      a ← store s.regions i (record r { is_free = false })
      some (cleared (record s { regions = a })))
    else if leb max_regions s.region_count
    then some (0, print (putln "PMM: No space for new region!") s)
    else (do
      a ← shift_up (s.region_count - (i + 1)) s.region_count s.regions
      a ←
          store a (i + 1)
            (record { base = u64 (r.base + sz); len = sub64 r.len sz; is_free = true })
      a ← store a i (record r { len = sz; is_free = false })
      some (cleared (record s { regions = a; region_count = u64 (s.region_count + 1) })))

-- The first-fit loop, with `rounds` left from `i` on.
unfoldable pub alloc_from : ℕ → ℕ → ℕ → State → Option (ℕ × State)
unfolding take_region
alloc_from sz zero i s = some (0, print (putln "PMM: No suitable region found!") s)
alloc_from sz (suc rounds) i s = do
  r ← load s.regions i
  let next = alloc_from sz rounds (i + 1) s
  if r.is_free && leb sz r.len then take_region sz i r s else next

unfoldable pub alloc_pages : ℕ → State → Option (ℕ × State)
unfolding alloc_from
alloc_pages count s = alloc_from (u64 (count * page_size)) s.region_count 0 s

-- `free_pages` once the region is found at `i`: it becomes free and joins its free neighbours.
unfoldable pub join_previous : ℕ → State → Option (ℕ × State)
unfolding absorb
join_previous i s =
    if ltb 0 i
    then (do
      p ← load s.regions (i - 1)
      let join = (do
        a ← absorb (i - 1) s.region_count s.regions
        some (i - 1, record s { regions = a; region_count = sub64 s.region_count 1 }))
      if p.is_free then join else some (i, s))
    else some (i, s)

unfoldable pub join_next : ℕ → State → Option State
unfolding absorb
join_next i s =
    if ltb i (sub64 s.region_count 1)
    then (do
      q ← load s.regions (i + 1)
      let join = (do
        a ← absorb i s.region_count s.regions
        some (record s { regions = a; region_count = sub64 s.region_count 1 }))
      if q.is_free then join else some s)
    else some s

unfoldable pub release : ℕ → Region → State → Option State
unfolding join_previous join_next
release i r s = do
  a ← store s.regions i (record r { is_free = true })
  t ← join_previous i (record s { regions = a })
  join_next t.0 t.1

unfoldable pub free_from : ℕ → ℕ → ℕ → ℕ → State → Option State
unfolding release
free_from base size zero i s = some (print (putln "PMM: Tried to free invalid pages!") s)
free_from base size (suc rounds) i s = do
  r ← load s.regions i
  let next = free_from base size rounds (i + 1) s
  if r.base == base && r.len == size then release i r s else next

unfoldable pub free_pages : ℕ → ℕ → State → Option State
unfolding free_from
free_pages base count s = free_from base (u64 (count * page_size)) s.region_count 0 s

-- `get_free_memory`, with `rounds` left from `i` on.
unfoldable pub total_from : ℕ → ℕ → ℕ → State → Option ℕ
total_from zero i total s = some total
total_from (suc rounds) i total s = do
  r ← load s.regions i
  total_from rounds (i + 1) (if r.is_free then u64 (total + r.len) else total) s

unfoldable pub get_free_memory : State → Option ℕ
unfolding total_from
get_free_memory s = total_from s.region_count 0 0 s
