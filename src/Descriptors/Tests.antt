-- ===== src/Descriptors/Tests.antt =====
-- A kernel with free pages, and pipes in its file table.
use seeking_os.Prelude.{
  ℕ, ◌≡◌, refl, true, false, Option, none, some, [], Outcome, ok, panic, ◌==◌, if◌then◌else◌,
}
use seeking_os.Bitmap.{
  Bitmap, bitmap_scan, bitmap_set, find_byte, find_bit, scan_from, scan_run, bitmap_scan_test,
}
use seeking_os.Bitmap.Byte.{bit_of, with_bit}
use seeking_os.Pages.{
  Pool, VirtualAddrPool, Machine, PoolFlags, malloc_page, mfree_page, vaddr_get, vaddr_take,
  set_run, add_pages, add_page, palloc, page_table_add, is_present, pde_ptr, pte_ptr, vaddr_of,
  clear_table, entry_for, write_entry, addr_v2p, free_pages, pfree, pool_free,
  page_table_pte_remove, vaddr_remove,
}
use seeking_os.Files.{free_slot, free_fd, get_free_slot_in_global, pcb_fd_install, fd_local2global}
use seeking_os.IoQueue.Locking.{free_lock}
use seeking_os.Descriptors.{Tables, pipe_slot, sys_pipe, sys_close, sys_fd_redirect}
use seeking_os.Descriptors.Lifecycle.{pipe_then_close}

-- Pages 0, 1, 2 and 4 are taken.
abbrev sparse : Bitmap
sparse = record { btmp_bytes_len = 2; bits = λ a. if a == 0 then 0x17 else 0 }

abbrev frames : ℕ → Pool
frames start = record { pool_bitmap = sparse; phy_addr_start = start; pool_size = 0x10000 }

abbrev addresses : VirtualAddrPool
addresses = record { vaddr_bitmap = sparse; vaddr_start = 0xc0100000 }

abbrev machine : Machine
machine = record {
  kernel_pool = frames 0x200000;
  user_pool = frames 0x300000;
  kernel_vaddr_pool = addresses;
  userprog_vaddr = addresses;
  has_pgdir = false;
  entries = λ a. if a == 0xfffffc00 then 0x101007 else 0;
}

abbrev tables : Tables
tables = record {
  files = record {
    file_table =
        λ j. record { fd_pos = 0; fd_flag = 0; fd_inode = if j == 3 then some 6 else none };
    fd_table = λ j. if j == 3 then some 3 else none;
    open_inodes = λ i. record { i_size = 700; i_open_cnts = 1; writen_deny = false };
    size_on_disk = λ i. 700;
  };
  machine = machine;
  rings = λ p. record {
    lock = free_lock [];
    producer = none;
    consumer = none;
    buf = λ a. 0;
    head = 0;
    tail = 0;
  };
}

abbrev first_of : {A : Type 0} → A → Outcome (Option ℕ × A) → A
first_of d (ok r) = r.1
first_of d panic = d
first_of d Outcome.out_of_fuel = d

abbrev tables_of : Outcome (Option (Option ℕ × Option ℕ) × Tables) → Tables
tables_of (ok r) = r.1
tables_of panic = tables
tables_of Outcome.out_of_fuel = tables

abbrev machine_of : Outcome Machine → Machine
machine_of (ok m) = m
machine_of panic = machine
machine_of Outcome.out_of_fuel = machine

abbrev with_page : Machine
with_page = first_of machine (malloc_page machine PoolFlags.pf_kernel 1)

abbrev piped : Tables
piped = tables_of (sys_pipe tables)

abbrev freed : Machine
freed = machine_of (mfree_page with_page PoolFlags.pf_kernel 0xc0103000 1)

pipe_then_close_example :
    (t₂ t₃ : Tables) × (sys_close piped 4 ≡ ok (true, t₂))
    × (t₂.machine ≡ piped.machine)
    × (fd_local2global t₂.files 5 ≡ ok 4)
    × (sys_close t₂ 5 ≡ ok (true, t₃))
    × (t₃.machine ≡ freed)
    × ((t₃.files.file_table 4).fd_inode ≡ none)
    × ((j : ℕ) → t₃.files.fd_table j ≡ tables.files.fd_table j)
unfolding malloc_page vaddr_get vaddr_take bitmap_scan find_byte find_bit bit_of scan_from set_run
    bitmap_set add_pages add_page palloc page_table_add is_present pde_ptr pte_ptr vaddr_of with_bit
    bitmap_scan_test scan_run clear_table entry_for get_free_slot_in_global free_slot free_fd
    pcb_fd_install sys_pipe pipe_slot mfree_page addr_v2p free_pages pfree pool_free
    page_table_pte_remove vaddr_remove write_entry
pipe_then_close_example =
    pipe_then_close tables piped 4 0xc0103000 4 5 with_page freed refl refl refl refl

-- The shell's way back from a pipe
redirected : (sys_fd_redirect tables.files 1 3).fd_table 1 ≡ some 3
unfolding sys_fd_redirect
redirected = refl
