-- ===== src/Memory/Tests.antt =====
-- A small machine: a file whose byte at `i` is `i`, four user pages, and a swap partition of 64 sectors.
use operating_system_col.Base.{
  ℕ, ◌+◌, ◌/◌, ◌≡◌, refl, inl, inr, true, false, not, Option, none, some, List, [], ◌++◌, arith,
  ◌==◌, if◌then◌else◌, Bool-cases,
}
use operating_system_col.Threads.{◌>>=◌}
use operating_system_col.Threads.WellFormed.{Returns, Returns-mono}
use operating_system_col.Syscall.Children.{page_size}
use operating_system_col.Syscall.Address.{page_of}
use operating_system_col.Loader.Pages.{SupPage}
use operating_system_col.Loader.Lazy.{Loadable, pages_from, lazy_load_segment-Noted, page_at}
use operating_system_col.Loader.Tests.{machine}
use operating_system_col.Memory.Bitmap.{Bitmap, bitmap_scan_and_flip}
use operating_system_col.Memory.Scan.{Flipped, bitmap_scan_and_flip-Flipped}
use operating_system_col.Memory.Pool.{Pools}
use operating_system_col.Memory.Swap.{Block, Swap, swap_out, swap_in}
use operating_system_col.Memory.Sectors.{Keeps}
use operating_system_col.Memory.Slots.{Represents, Out, swap_out-Out, Page}
use operating_system_col.Memory.Fetch.{In, swap_in-In}
use operating_system_col.Memory.Paging.{Platform, Paging, Trap, page_fault, frame_map, frame_free}
use operating_system_col.Memory.View.{Maps, IsPaged}
use operating_system_col.Memory.Frames.{HasRoom}
use operating_system_col.Memory.Load.{Executable, NeverFull}
use operating_system_col.Memory.Fault.{IsUserFault, ResumedLoaded, page_fault-ResumedLoaded}
use operating_system_col.Memory.Segment.{Touched, lazy_load_segment-Touched}
use operating_system_col.Memory.FreeFrame.{Restored, frame_free-frame_map}

abbrev four_free : Bitmap
four_free = record { bit_cnt = 4; bits = λ j. false }

bitmap_scan_and_flip-Flipped_example :
    Returns (Flipped 1 2 false four_free) (bitmap_scan_and_flip 1 2 false four_free)
bitmap_scan_and_flip-Flipped_example =
    bitmap_scan_and_flip-Flipped 1 2 false four_free (omega arith) (omega arith) (omega arith)

-- A device that keeps its sectors in memory.
abbrev disk : Block
disk = record {
  World = ℕ → ℕ → ℕ;
  block_size = λ w. 64;
  block_read = λ i w. (w i, w);
  block_write = λ i bytes w. λ j. if j == i then bytes else w j;
}

disk-Keeps : Keeps disk
disk-Keeps = record {
  read_write =
      λ i j bytes w o l. elim (Bool-cases (i == j)) [ inl e ↦ rw e refl | inr e ↦ rw e refl ];
  read_read = λ i j w o l. refl;
}

abbrev empty_swap : Swap disk
empty_swap = record {
  freemap = record { bit_cnt = 8; bits = λ j. true };
  memory = λ a. a;
  world = λ i o. 7;
}

empty_swap-Represents : Represents disk disk-Keeps (λ i. none) empty_swap
empty_swap-Represents = record { fits = omega arith; slot = λ i h. refl }

swap_out-Out_example :
    Returns (Out disk disk-Keeps 4096 (λ i. none) empty_swap) (swap_out disk 4096 empty_swap)
swap_out-Out_example =
    swap_out-Out disk disk-Keeps 4096 (λ i. none) empty_swap empty_swap-Represents

-- The first slot holds a page of sevens.
abbrev one_page : ℕ → Option Page
one_page i = if i == 0 then some (λ o. 7) else none

abbrev one_swapped : Swap disk
one_swapped = record {
  freemap = record { bit_cnt = 8; bits = λ j. not (j == 0) };
  memory = λ a. a;
  world = λ i o. 7;
}

one_swapped-Represents : Represents disk disk-Keeps one_page one_swapped
one_swapped-Represents = record {
  fits = omega arith;
  slot = λ i h. elim (Bool-cases (i == 0)) [
    | inl e ↦ rw e (rw e refl, λ o l. refl)
    | inr e ↦ rw e (rw e refl)
  ];
}

swap_in-In_example :
    Returns
      (In disk disk-Keeps 4096 one_page one_swapped (one_page 0))
      (swap_in disk 0 4096 one_swapped)
swap_in-In_example =
    swap_in-In disk disk-Keeps 4096 one_page one_swapped one_swapped-Represents 0 (omega arith)

abbrev platform : Platform
platform = record {
  World = ℕ → ℕ;
  malloc = λ w. (true, w);
  pagedir_get_page = λ u w. w u;
  pagedir_set_page = λ u k writable w. (true, λ v. if v == u then k else w v);
  file_read_at = λ ofs n w. ((n, λ o. ofs + o), w);
}

platform-Maps : Maps platform
platform-Maps = record {
  set_get = λ u k writable w v a b e. refl;
  malloc_get = λ w v. refl;
  read_get = λ ofs n w v. refl;
}

abbrev executable : Executable platform
executable = record {
  size = 8000;
  content = λ i. i;
  complete = λ ofs n w h. refl;
  faithful = λ ofs n w o h l. refl;
}

platform-NeverFull : NeverFull platform
platform-NeverFull u k writable w = refl

abbrev pools : Pools
pools = record {
  kernel_pool = record { base = 786688; used_map = record { bit_cnt = 100; bits = λ j. true } };
  user_pool = record { base = 786800; used_map = four_free };
  memory = λ a. 204;
}

abbrev process : List SupPage → Paging platform
process table = record {
  pools = pools;
  allframes = [];
  frame_count = 0;
  owner = 3;
  sup_page_table = table;
  page_fault_cnt = 0;
  world = λ v. 0;
}

process-IsPaged : (table : List SupPage) → IsPaged platform (process table)
process-IsPaged table = record {
  small = omega arith;
  base_pos = omega arith;
  mapped = λ u al ne. absurd (ne refl);
  separate = λ u v al al' ne e. absurd (ne refl);
}

pools-HasRoom : HasRoom pools
pools-HasRoom = (0, omega arith, omega arith, refl)

-- A read by the user of an address that is not present.
abbrev access : ℕ → Trap
access a = record { error_code = 4; eip = 134512700; esp = 3221225400; eax = 0; fault_addr = a }

abbrev image : List SupPage
image = [] ++ pages_from 0 134512640 48 true (8192 / page_size) 0

two_pages : Loadable 0 134512640 48 (48 + 8144)
two_pages = record { in_user_space = omega arith; offsets = omega arith; enough = omega arith }

abbrev second_page : Trap
second_page = access 134516740

second_page-IsUserFault : IsUserFault second_page
second_page-IsUserFault = record {
  user = refl;
  absent = refl;
  not_null = λ e. absurd (omega arith);
}

lazy_load_segment-Touched_example :
    Returns
      (Touched platform platform-Maps executable platform-NeverFull 0 134512640 48
        (page_of 134516740)
        (process image))
      (page_fault platform second_page (process image))
lazy_load_segment-Touched_example =
    lazy_load_segment-Touched platform platform-Maps executable platform-NeverFull machine 0
      134512640 48 8144 true tt [] second_page (process image) (λ w. refl) two_pages refl refl refl
      (omega arith)
      (Returns-mono _ (λ out. out.1.1 ≡ image) _
        (lazy_load_segment-Noted machine (λ w. refl) 0 134512640 48 8144 true tt [] two_pages refl
          refl refl)
        λ out q. q.1)
      refl second_page-IsUserFault (omega arith) (omega arith) (process-IsPaged image) refl
      pools-HasRoom

abbrev first_page : Trap
first_page = access 134512650

page_fault-ResumedLoaded_example :
    Returns
      (ResumedLoaded platform platform-Maps executable platform-NeverFull
        (page_at 0 134512640 48 true 0)
        (page_of 134512650)
        (process image))
      (page_fault platform first_page (process image))
page_fault-ResumedLoaded_example =
    page_fault-ResumedLoaded platform platform-Maps executable platform-NeverFull first_page
      (page_at 0 134512640 48 true 0) (process image)
      (record { user = refl; absent = refl; not_null = λ e. absurd (omega arith) })
      (process-IsPaged image)
      (record {
        aligned = refl;
        absent = refl;
        found = refl;
        on_disk = refl;
        fits = omega arith;
        in_file = omega arith;
      })
      pools-HasRoom

abbrev push : Trap
push = access 3221225396

frame_free-frame_map_example :
    Returns
      (Restored platform (process image))
      (frame_map platform 134512640 true (process image) >>= λ (pa, s1). frame_free platform pa s1)
frame_free-frame_map_example =
    frame_free-frame_map platform 134512640 true (process image)
      (record { base_pos = omega arith; apart = omega arith; fits = omega arith }) refl
      (λ i h e. refl) pools-HasRoom
