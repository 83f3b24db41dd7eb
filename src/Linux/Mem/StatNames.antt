-- ===== src/Linux/Mem/StatNames.antt =====
-- The names of the statistics in /proc/meminfo.
use go_hass_agent.Prelude.{[], ◌∷◌}
use go_hass_agent.Prelude.Dict.{Dict}
use go_hass_agent.Linux.Mem.Ids.{
  MemStatId, mem_total, mem_free, mem_available, mem_buffered, mem_cached, swap_cached, mem_active,
  mem_inactive, mem_anon_active, mem_anon_inactive, mem_file_active, mem_file_inactive,
  mem_unevictable, mem_locked, swap_total, swap_free, zswap_total, zswap_used, mem_dirty,
  mem_writeback, mem_anon_pages, mem_mapped, mem_shmem, mem_k_reclaimable, mem_slab,
  mem_s_reclaimable, mem_s_unreclaim, mem_kernel_stack, mem_page_tables, mem_sec_page_tables,
  mem_nfs_unstable, mem_bounce, mem_writeback_tmp, mem_commit_limit, mem_committed_as,
  vmalloc_total, vmalloc_used, vmalloc_chunk, mem_percpu, mem_corrupted, mem_anon_huge_pages,
  mem_shmem_huge_pages, mem_shmem_pmd_mapped, mem_file_huge_pages, mem_file_pmd_mapped,
  mem_cma_total, mem_cma_free, mem_unaccepted, mem_huge_pages_total, mem_huge_pages_free,
  mem_huge_pages_rsvd, mem_huge_pages_surp, mem_hugepagesize, mem_hugetlb, mem_direct_map_4k,
  mem_direct_map_2m,
}

-- statNames
unfoldable pub stat_names : Dict MemStatId
stat_names =
    ("MemTotal", mem_total)
    ∷ ("MemFree", mem_free)
    ∷ ("MemAvailable", mem_available)
    ∷ ("Buffers", mem_buffered)
    ∷ ("Cached", mem_cached)
    ∷ ("SwapCached", swap_cached)
    ∷ ("Active", mem_active)
    ∷ ("Inactive", mem_inactive)
    ∷ ("Active(anon)", mem_anon_active)
    ∷ ("Inactive(anon)", mem_anon_inactive)
    ∷ ("Active(file)", mem_file_active)
    ∷ ("Inactive(file)", mem_file_inactive)
    ∷ ("Unevictable", mem_unevictable)
    ∷ ("Mlocked", mem_locked)
    ∷ ("SwapTotal", swap_total)
    ∷ ("SwapFree", swap_free)
    ∷ ("Zswap", zswap_total)
    ∷ ("Zswapped", zswap_used)
    ∷ ("Dirty", mem_dirty)
    ∷ ("Writeback", mem_writeback)
    ∷ ("AnonPages", mem_anon_pages)
    ∷ ("Mapped", mem_mapped)
    ∷ ("Shmem", mem_shmem)
    ∷ ("KReclaimable", mem_k_reclaimable)
    ∷ ("Slab", mem_slab)
    ∷ ("SReclaimable", mem_s_reclaimable)
    ∷ ("SUnreclaim", mem_s_unreclaim)
    ∷ ("KernelStack", mem_kernel_stack)
    ∷ ("PageTables", mem_page_tables)
    ∷ ("SecPageTables", mem_sec_page_tables)
    ∷ ("NFS_Unstable", mem_nfs_unstable)
    ∷ ("Bounce", mem_bounce)
    ∷ ("WritebackTmp", mem_writeback_tmp)
    ∷ ("CommitLimit", mem_commit_limit)
    ∷ ("Committed_AS", mem_committed_as)
    ∷ ("VmallocTotal", vmalloc_total)
    ∷ ("VmallocUsed", vmalloc_used)
    ∷ ("VmallocChunk", vmalloc_chunk)
    ∷ ("Percpu", mem_percpu)
    ∷ ("HardwareCorrupted", mem_corrupted)
    ∷ ("AnonHugePages", mem_anon_huge_pages)
    ∷ ("ShmemHugePages", mem_shmem_huge_pages)
    ∷ ("ShmemPmdMapped", mem_shmem_pmd_mapped)
    ∷ ("FileHugePages", mem_file_huge_pages)
    ∷ ("FilePmdMapped", mem_file_pmd_mapped)
    ∷ ("CmaTotal", mem_cma_total)
    ∷ ("CmaFree", mem_cma_free)
    ∷ ("Unaccepted", mem_unaccepted)
    ∷ ("HugePages_Total", mem_huge_pages_total)
    ∷ ("HugePages_Free", mem_huge_pages_free)
    ∷ ("HugePages_Rsvd", mem_huge_pages_rsvd)
    ∷ ("HugePages_Surp", mem_huge_pages_surp)
    ∷ ("Hugepagesize", mem_hugepagesize)
    ∷ ("Hugetlb", mem_hugetlb)
    ∷ ("DirectMap4k", mem_direct_map_4k)
    ∷ ("DirectMap2M", mem_direct_map_2m)
    ∷ ("DirectMap1G", mem_direct_map_4k)
    ∷ []
