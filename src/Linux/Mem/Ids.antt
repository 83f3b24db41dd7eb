-- ===== src/Linux/Mem/Ids.antt =====
-- The statistics of /proc/meminfo and their names (memStats.go and memStats_generated.go).
use go_hass_agent.Prelude.{ℕ, String}

-- memStatID
pub data MemStatId : Type 0 where
  mem_total mem_free mem_available mem_buffered mem_cached swap_cached mem_active : MemStatId
  mem_inactive mem_anon_active mem_anon_inactive mem_file_active mem_file_inactive : MemStatId
  mem_unevictable mem_locked swap_total swap_free zswap_total zswap_used mem_dirty : MemStatId
  mem_writeback mem_anon_pages mem_mapped mem_shmem mem_k_reclaimable mem_slab : MemStatId
  mem_s_reclaimable mem_s_unreclaim mem_kernel_stack mem_page_tables mem_sec_page_tables : MemStatId
  mem_nfs_unstable mem_bounce mem_writeback_tmp mem_commit_limit mem_committed_as : MemStatId
  vmalloc_total vmalloc_used vmalloc_chunk mem_percpu mem_corrupted mem_anon_huge_pages : MemStatId
  mem_shmem_huge_pages mem_shmem_pmd_mapped mem_file_huge_pages mem_file_pmd_mapped : MemStatId
  mem_cma_total mem_cma_free mem_unaccepted mem_huge_pages_total mem_huge_pages_free : MemStatId
  mem_huge_pages_rsvd mem_huge_pages_surp mem_hugepagesize mem_hugetlb mem_direct_map_4k : MemStatId
  mem_direct_map_2m mem_direct_map_1g : MemStatId

-- memStats_generated.go
unfoldable pub mem_stat_string : MemStatId → String
mem_stat_string mem_total = "Memory Total"
mem_stat_string mem_free = "Memory Free"
mem_stat_string mem_available = "Memory Available"
mem_stat_string mem_buffered = "Memory Buffered"
mem_stat_string mem_cached = "Memory Cached"
mem_stat_string swap_cached = "Swap Cached"
mem_stat_string mem_active = "Memory Active"
mem_stat_string mem_inactive = "Memory Inactive"
mem_stat_string mem_anon_active = "Anonymous Memory Active"
mem_stat_string mem_anon_inactive = "Anonymous Memory Inactive"
mem_stat_string mem_file_active = "File Active Memory"
mem_stat_string mem_file_inactive = "File Inactive Memory"
mem_stat_string mem_unevictable = "Unevictable Memory"
mem_stat_string mem_locked = "Locked Memory"
mem_stat_string swap_total = "Swap Total"
mem_stat_string swap_free = "Swap Free"
mem_stat_string zswap_total = "Zswap Total"
mem_stat_string zswap_used = "Zswapped Used"
mem_stat_string mem_dirty = "Dirty Memory"
mem_stat_string mem_writeback = "Writeback Memory"
mem_stat_string mem_anon_pages = "Anonymous Page Tables Memory"
mem_stat_string mem_mapped = "mmap Memory"
mem_stat_string mem_shmem = "shmem Memory"
mem_stat_string mem_k_reclaimable = "Kernel Memory Reclaimable"
mem_stat_string mem_slab = "Kernel Slab Memory"
mem_stat_string mem_s_reclaimable = "Kernel Slab Memory Reclaimable"
mem_stat_string mem_s_unreclaim = "Kernel Slab Memory Unreclaimable"
mem_stat_string mem_kernel_stack = "Kernel Stack Memory"
mem_stat_string mem_page_tables = "Page Tables Memory"
mem_stat_string mem_sec_page_tables = "Secure Page Tables Memory"
mem_stat_string mem_nfs_unstable = "NFS Pages Memory"
mem_stat_string mem_bounce = "Block Device Bounce Buffer Memory"
mem_stat_string mem_writeback_tmp = "FUSE Temporary Writeback Buffer Memory"
mem_stat_string mem_commit_limit = "Commit Limit Total"
mem_stat_string mem_committed_as = "Commit Limit Allocated"
mem_stat_string vmalloc_total = "Vmalloc Total Memory"
mem_stat_string vmalloc_used = "Vmalloc Used Memory"
mem_stat_string vmalloc_chunk = "Vmalloc Largest Unused Chunk"
mem_stat_string mem_percpu = "Percpu Memory"
mem_stat_string mem_corrupted = "Memory Corrupted"
mem_stat_string mem_anon_huge_pages = "Anonymouse Huge Pages Memory"
mem_stat_string mem_shmem_huge_pages = "shmem Huge Pages Memory"
mem_stat_string mem_shmem_pmd_mapped = "shmem User Space Huge Pages Memory"
mem_stat_string mem_file_huge_pages = "File Huge Pages Memory"
mem_stat_string mem_file_pmd_mapped = "File User Space Huge Pages Memory"
mem_stat_string mem_cma_total = "Contiguous Memory Allocator Pages Total"
mem_stat_string mem_cma_free = "Contiguous Memory Allocator Pages Free"
mem_stat_string mem_unaccepted = "Unaccepted Memory"
mem_stat_string mem_huge_pages_total = "Huge Pages Total"
mem_stat_string mem_huge_pages_free = "Huge Pages Free"
mem_stat_string mem_huge_pages_rsvd = "Huge Pages Reserved"
mem_stat_string mem_huge_pages_surp = "Huge Pages Surplus"
mem_stat_string mem_hugepagesize = "Huge Page Size"
mem_stat_string mem_hugetlb = "Huge Page TLB"
mem_stat_string mem_direct_map_4k = "Kernel 4kB Pages"
mem_stat_string mem_direct_map_2m = "Kernel 2MB Pages"
mem_stat_string mem_direct_map_1g = "Kernel 1GB Pages"

-- The number of the constant, by which a map finds it.
unfoldable pub number : MemStatId → ℕ
number mem_total = 0
number mem_free = 1
number mem_available = 2
number mem_buffered = 3
number mem_cached = 4
number swap_cached = 5
number mem_active = 6
number mem_inactive = 7
number mem_anon_active = 8
number mem_anon_inactive = 9
number mem_file_active = 10
number mem_file_inactive = 11
number mem_unevictable = 12
number mem_locked = 13
number swap_total = 14
number swap_free = 15
number zswap_total = 16
number zswap_used = 17
number mem_dirty = 18
number mem_writeback = 19
number mem_anon_pages = 20
number mem_mapped = 21
number mem_shmem = 22
number mem_k_reclaimable = 23
number mem_slab = 24
number mem_s_reclaimable = 25
number mem_s_unreclaim = 26
number mem_kernel_stack = 27
number mem_page_tables = 28
number mem_sec_page_tables = 29
number mem_nfs_unstable = 30
number mem_bounce = 31
number mem_writeback_tmp = 32
number mem_commit_limit = 33
number mem_committed_as = 34
number vmalloc_total = 35
number vmalloc_used = 36
number vmalloc_chunk = 37
number mem_percpu = 38
number mem_corrupted = 39
number mem_anon_huge_pages = 40
number mem_shmem_huge_pages = 41
number mem_shmem_pmd_mapped = 42
number mem_file_huge_pages = 43
number mem_file_pmd_mapped = 44
number mem_cma_total = 45
number mem_cma_free = 46
number mem_unaccepted = 47
number mem_huge_pages_total = 48
number mem_huge_pages_free = 49
number mem_huge_pages_rsvd = 50
number mem_huge_pages_surp = 51
number mem_hugepagesize = 52
number mem_hugetlb = 53
number mem_direct_map_4k = 54
number mem_direct_map_2m = 55
number mem_direct_map_1g = 56
