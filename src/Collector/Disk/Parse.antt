-- ===== src/Collector/Disk/Parse.antt =====
-- What `ParseProcDiskstats` and `isPrimaryDisk` of internal/collector/disk.go accept.
use sugi.Base.{
  ℕ, ◌≡◌, refl, subst, false, List, [], ◌∷◌, ◌++◌, ltb, length, get_or, Bool-cases, inl, inr, All,
}
use sugi.Base.Text.{Text, codes, fields, has_prefix}
use sugi.Base.Dict.{All-insert}
use sugi.Base.Result.{ok, ok_of_if}
use sugi.Model.Metrics.{RawDiskStats}
use sugi.Collector.Scan.{Reader, scan_lines}
use sugi.Collector.Disk.{
  DiskTable, scan_failed, should_skip_device, disk_of, disk_fields, disk_lines,
  parse_proc_diskstats, one_letter, whole_disk, is_primary_disk,
}

-- An entry stands under its own name, which is that of a loop device or a RAM disk in no entry.
abbrev pub IsListed : Text × RawDiskStats → Type 0
IsListed (name, dev) = (dev.device_name ≡ name) × (should_skip_device name ≡ false)

disk_fields-IsListed :
    (fs : List Text) (result : DiskTable)
    → All IsListed result
    → All IsListed (disk_fields fs result)
unfolding disk_fields
disk_fields-IsListed fs result h =
    let name = get_or fs 2 [] in
    elim (Bool-cases (ltb (length fs) 14)) [
      | inl short ↦ rw short h
      | inr long ↦ rw long (elim (Bool-cases (should_skip_device name)) [
        | inl skipped ↦ rw skipped h
        | inr listed ↦ rw listed (All-insert IsListed name (disk_of fs) result (refl, listed) h)
      ])
    ]

disk_lines-IsListed :
    (lines : List Text) (result : DiskTable)
    → All IsListed result
    → All IsListed (disk_lines lines result)
unfolding disk_lines
disk_lines-IsListed [] result h = h
disk_lines-IsListed (line ∷ lines) result h =
    disk_lines-IsListed lines (disk_fields (fields line) result)
      (disk_fields-IsListed (fields line) result h)

-- Whatever the file says, each entry that `ParseProcDiskstats` returns stands under its own device
-- name, and none is of a loop device or a RAM disk.
pub parse_proc_diskstats-IsListed :
    (r : Reader) {table : DiskTable} → parse_proc_diskstats r ≡ ok table → All IsListed table
unfolding parse_proc_diskstats
parse_proc_diskstats-IsListed r {table} e =
    let result = disk_lines (scan_lines r).0 [] in
    let same : result ≡ table =
      let k = (ok_of_if (scan_lines r).1 scan_failed (ok result) e).1 in cc in
    subst (All IsListed) same (disk_lines-IsListed (scan_lines r).0 [] tt)

-- Behind the prefixes "sd", "vd", "hd" and "xvd", `isPrimaryDisk` rejects every name with more than
-- one character left: partitions, and also the whole disks behind the 26th.
pub is_primary_disk-longer :
    (a b : ℕ) (s : Text)
    → All
        (λ prefix. is_primary_disk (prefix ++ a ∷ b ∷ s) ≡ false)
        (codes "sd" ∷ codes "vd" ∷ codes "hd" ∷ codes "xvd" ∷ [])
unfolding is_primary_disk whole_disk has_prefix one_letter
is_primary_disk-longer a b s = (refl, (refl, (refl, (refl, tt))))
