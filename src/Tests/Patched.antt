-- ===== src/Tests/Patched.antt =====
-- The release of a differential package (src/qboot.c) on a small disk.
use rt_thread_qboot.Base.{◌≡◌, refl, none, some, take, length, arith, while}
use rt_thread_qboot.Storage.{FwInfo}
use rt_thread_qboot.Storage.Header.{encode_header, fw_info_write}
use rt_thread_qboot.Storage.Targets.{erase_with_feed}
use rt_thread_qboot.Algo.{
  AlgoContext, Tables, empty_tables, cmprs_id_to_index, crypto_id_to_index, cmprs_register,
  crypto_register, find_crypto, find_cmprs, get_algo_context, algo_init, algo_deinit,
}
use rt_thread_qboot.Algo.NoneCodec.{none_register, none_crypt_ops}
use rt_thread_qboot.Stream.{StreamCfg}
use rt_thread_qboot.Boot.Patched.{release_patch, fw_release_patched, fw_release_patched-delivers}
use rt_thread_qboot.Patch.Ram.{
  ram_swap_init, ram_copy_to_old, ram_swap_append, ram_swap_reset, ram_swap_ops,
}
use rt_thread_qboot.Patch.Commit.{
  patch_got, do_read_patch, do_read_old, erased_range, first_sector, erase_aligned_range,
  swap_commit, chunk_len, commit_if_full, write_round, do_write_new,
}
use rt_thread_qboot.Patch.Release.{
  hpi_patch, alloc_got, swap_alloc_buf, swap_free_buf, patch_and_commit, swap_inited, buf_allocated,
  sector_known, tail_sized, erase_tail, hpatch_release, hpatch_instance, hpatchlite_register,
  hpatchlite_cmprs_ops,
}
use rt_thread_qboot.Patch.Handed.{handed_over}
use rt_thread_qboot.Patch.Backends.RamLaws.{ram-laws}
use rt_thread_qboot.Tests.Board.{crc}
use rt_thread_qboot.Tests.Loader.{fw}
use rt_thread_qboot.Tests.Disk.{Disk, disk_io, disk_feed, kernel, by_four, disk-Around, disk_image}
use rt_thread_qboot.Tests.Patch.{disk, idle, patcher, patcher-Heeds, new_image}

abbrev patch_fw : FwInfo
patch_fw = record fw { algo = 0x0400; raw_size = 5; pkg_size = 2 }

-- Headers are cut to 4 bytes, for which the disk has room behind the image.
abbrev patch_cfg : StreamCfg
patch_cfg = record { cmprs_read_size = 3; buf_size = 2; src_read_pos = 4; enospc = 28 }

abbrev patch_tables : Tables Disk
patch_tables = (hpatchlite_register (none_register 28 empty_tables).1).1

abbrev patch_algo : AlgoContext Disk
patch_algo = record { crypt_ops = some none_crypt_ops; cmprs_ops = hpatchlite_cmprs_ops }

abbrev patched : Disk
patched =
    (fw_release_patched disk_io patch_cfg crc patch_tables disk_feed kernel (ram_swap_ops disk_io 2)
      none patcher 0 12 0 patch_fw idle disk).1

fw_release_patched-delivers_example : (take 5 patched.image ≡ new_image) × (length new_image ≡ 5)
unfolding fw_release_patched release_patch fw_info_write encode_header empty_tables
    cmprs_id_to_index crypto_id_to_index cmprs_register crypto_register find_crypto find_cmprs
    get_algo_context algo_init algo_deinit none_register hpatchlite_register hpatch_release
    hpatch_instance handed_over sector_known buf_allocated swap_inited patch_and_commit hpi_patch
    do_read_patch patch_got do_read_old do_write_new write_round chunk_len commit_if_full
    swap_commit erase_aligned_range first_sector erased_range erase_with_feed swap_alloc_buf
    alloc_got swap_free_buf erase_tail tail_sized while ram_swap_init ram_copy_to_old
    ram_swap_append ram_swap_reset
fw_release_patched-delivers_example =
    fw_release_patched-delivers patch_cfg crc patch_tables disk_image by_four
      (ram-laws disk_image 2 (omega arith) (omega arith)) disk-Around (omega arith) none patcher 12
      0 patch_fw patch_algo idle disk patcher-Heeds refl refl (λ w. refl) (omega arith)
      (omega arith) refl refl
