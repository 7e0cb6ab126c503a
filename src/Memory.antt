-- ===== src/Memory.antt =====
-- arch/x86_64/src/mem_impl.cpp, `mm_trait<x86_64>::init`: the start of the memory management.
use oronyx.Base.{ℕ, bit_or, update, Option, none, some, List, ◌>>=◌, ◌==◌, if◌then◌else◌}
use oronyx.Machine.{Machine, say, halt}
use oronyx.Paging.{alloc_page}
use oronyx.Pmm.{Entry, putln}

-- The end of `init` once a page was allocated. The statements that set the NX bit pass the register
-- 0xC0000080 by the constraint `A`, which names one 64-bit register and not the pair of halves that
-- the instructions take: the value `efer` that they leave depends on the compiler and is an
-- argument.
unfoldable pub protect : ℕ → Machine → Machine
protect efer m =
    let n = say (putln "Enabling NX bit...") m in
    let n' = record n { msr = update n.msr 0xc0000080 efer } in
    let n'' = say (putln "Setting WP bit...") n' in
    say (putln "MM initialized") (record n'' { cr0 = bit_or n''.cr0 0x10000 })

-- The responses are the offset and the memory map; `none` is a null response.
unfoldable pub init : Option ℕ → Option (List Entry) → ℕ → Machine → Option Machine
unfolding alloc_page protect
init none mmap efer m = some (say (putln "MM init failed: no HHDM or memmap response") m)
init (some offset) none efer m = some (say (putln "MM init failed: no HHDM or memmap response") m)
init (some offset) (some entries) efer m = do
  p ← oronyx.Pmm.init (some entries) offset m.memory.pmm
  t ← alloc_page (record m.memory { hhdm_offset = offset; pmm = p })
  let n = record m { memory = t.1 }
  some
      (if t.0 == 0 then halt (say (putln "Failed to allocate physical page") n) else protect efer n)
