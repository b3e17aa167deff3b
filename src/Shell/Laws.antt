-- ===== src/Shell/Laws.antt =====
-- What the commands on files need of the calls: the files that they see are those of a file map.
use frod_os.Prelude.{ℕ, ◌≤◌, ◌≡◌, List, length, take}
use frod_os.CString.{text}
use frod_os.Frodfs.Read.{reading}
use frod_os.Frodfs.Spec
use frod_os.Frodfs.Spec.{FileMap}
use frod_os.Shell.{Calls}

-- A kernel that is ready shows its files, and the calls change them as the map says.
pub record FileLaws (K : Type 0) (sys : Calls K) : Type 1 where
  pub IsReady : K → Type 0
  pub files : K → FileMap
  pub print_lem :
      (str : List ℕ) (k : K)
      → IsReady k
      → IsReady (sys.sys_print str k) × (files (sys.sys_print str k) ≡ files k)
  pub create_lem :
      (name : List ℕ) (k : K)
      → IsReady k
      → length (text name) ≤ 31
      → IsReady (sys.sys_fs_create name k).0
        × ((files (sys.sys_fs_create name k).0, (sys.sys_fs_create name k).1)
            ≡ Spec.create (files k) (text name))
  pub write_lem :
      (name buffer : List ℕ) (size : ℕ) (k : K)
      → IsReady k
      → size ≤ length buffer
      → IsReady (sys.sys_fs_write name buffer size k).0
        × ((files (sys.sys_fs_write name buffer size k).0, (sys.sys_fs_write name buffer size k).1)
            ≡ Spec.write (files k) (text name) (take size buffer))
  pub read_lem :
      (name buffer : List ℕ) (max_size : ℕ) (k : K)
      → IsReady k
      → max_size ≤ length buffer
      → sys.sys_fs_read name buffer max_size k
        ≡ (k, reading buffer 0 (Spec.read (files k) (text name) max_size))
