-- ===== src/Collector/Reader.antt =====
-- internal/collector/reader.go: where the files of /proc are opened.
use sugi.Base.{Option, List, [], ◌∷◌, if◌then◌else◌}
use sugi.Base.Text.{Text, codes, is_empty}
use sugi.Collector.Scan.{Reader}

-- `NewDefaultProcFS`: the base directory.
unfoldable pub new_default_proc_fs : List Text → Text
new_default_proc_fs [] = codes "/proc"
new_default_proc_fs (dir ∷ dirs) = if is_empty dir then codes "/proc" else dir

-- `Open`, given filepath.Join and os.Open.
unfoldable pub open_file :
    (Text → Text → Text) → (Text → Option Reader) → Text → Text → Option Reader
open_file join open_path base name = open_path (join base name)
