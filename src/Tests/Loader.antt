-- ===== src/Tests/Loader.antt =====
-- Examples for the loader and the stack.
use riscv_64i_simulator.Common.{◌<◌, ◌≤◌, ◌+◌, ◌-◌, ◌≢◌, ◌≡◌, refl, none, arith}
use riscv_64i_simulator.Isa.Inst.{stack_start, stack_size}
use riscv_64i_simulator.Memory.Paging.{byte_at}
use riscv_64i_simulator.Loader.{Segment, map_stack}
use riscv_64i_simulator.Loader.Pages.{SegmentLoaded, load_segment-SegmentLoaded}
use riscv_64i_simulator.Loader.Stack.{map_stack_lem}
use riscv_64i_simulator.Tests.{page_zero}

-- Ten bytes in a file, and 6000 in memory.
abbrev text : Segment
text = record { file_size = 10; memory_size = 6000; virtual_address = 0x10000; bytes = λ i. i + 3 }

load_segment-SegmentLoaded_example : SegmentLoaded 7000 page_zero text
load_segment-SegmentLoaded_example =
    load_segment-SegmentLoaded 7000 page_zero text refl (omega arith) (omega arith) (omega arith)

map_stack_lem_example :
    (byte_at page_zero 0x7fffbff8 ≢ none
      → byte_at (map_stack page_zero) 0x7fffbff8 ≡ byte_at page_zero 0x7fffbff8)
    × (stack_start - stack_size + 4096 ≤ 0x7fffbff8
        → 0x7fffbff8 < stack_start + 4096
        → byte_at (map_stack page_zero) 0x7fffbff8 ≢ none)
map_stack_lem_example = map_stack_lem page_zero 0x7fffbff8 (omega arith)
