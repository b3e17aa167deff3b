-- ===== src/Frodfs/Tests.antt =====
-- Runs of the file system on concrete calls, and the theorems at them.
use frod_os.Prelude.{
  ℕ, zero, suc, ◌<◌, ◌≡◌, ◌≢◌, refl, List, [], ◌∷◌, ◌++◌, none, some, pos, negsuc, arith, length,
  take, drop, All, replicate, length-replicate,
}
use frod_os.CString.{text}
use frod_os.Frodfs
use frod_os.Frodfs.{
  Entry, fs_max_files, Storage, Reading, file_exists, claim_slot, write_loop, read_loop, list_loop,
  put_line, store_bytes, new_entry,
}
use frod_os.Frodfs.Create.{view, create_refines, create-IsValid}
use frod_os.Frodfs.Write.{write_refines, long_name_lost}
use frod_os.Frodfs.Read.{reading, read_refines}
use frod_os.Frodfs.Session.{HasRoom, init-IsValid, Call, Reply, run, run_spec, run_refines}
use frod_os.Frodfs.Listing.Longest.{IsLongest, lines}
use frod_os.Frodfs.Listing.{list_lem}
use frod_os.Frodfs.Valid.{IsValid, free_slots}
use frod_os.Frodfs.Spec
use frod_os.CString.{strcmp, copy_text, copy_bytes}

blank_slot : Entry
blank_slot = record { name = replicate 32 0; size = 7; contents = replicate 4096 0; used = 3 }

-- The array before `frodfs_init`, with stale sizes and flags.
pub blank_table : Storage
blank_table = replicate 32 blank_slot

All-replicate : (P : Entry → Type 0) (n : ℕ) (e : Entry) → P e → All P (replicate n e)
unfolding replicate
All-replicate P zero e h = tt
All-replicate P (suc n) e h = (h, All-replicate P n e h)

pub blank_table-HasRoom : All HasRoom blank_table
unfolding blank_table blank_slot
blank_table-HasRoom = All-replicate HasRoom 32 _ (length-replicate 32 0, length-replicate 4096 0)

pub empty_table : Storage
empty_table = Frodfs.init blank_table

pub empty_table-view : view empty_table ≡ record { files = λ k. none; free = 32 }
unfolding empty_table
empty_table-view =
    (init-IsValid blank_table (unfold blank_table in length-replicate 32 blank_slot)
      blank_table-HasRoom).1

pub blank_table_slots : length blank_table ≡ fs_max_files
unfolding blank_table
blank_table_slots = length-replicate 32 blank_slot

pub empty_table-IsValid : IsValid empty_table
unfolding empty_table
empty_table-IsValid =
    (init-IsValid blank_table (unfold blank_table in length-replicate 32 blank_slot)
      blank_table-HasRoom).0

abbrev notes : List ℕ
notes = b'n' ∷ b'o' ∷ b't' ∷ b'e' ∷ b's' ∷ []

abbrev hello : List ℕ
hello = b'h' ∷ b'e' ∷ b'l' ∷ b'l' ∷ b'o' ∷ []

-- A table with one file.
one_file : Storage
one_file = (Frodfs.create empty_table (some notes)).0

one_file-IsValid : IsValid one_file
unfolding one_file
one_file-IsValid = create-IsValid empty_table notes empty_table-IsValid (omega arith)

create_refines_example :
    (view (Frodfs.create one_file (some hello)).0, (Frodfs.create one_file (some hello)).1)
    ≡ Spec.create (view one_file) hello
create_refines_example = create_refines one_file hello one_file-IsValid (omega arith)

write_refines_example :
    (
      view (Frodfs.write one_file (some notes) (some hello) 4).0,
      (Frodfs.write one_file (some notes) (some hello) 4).1,
    )
    ≡ Spec.write (view one_file) notes (take 4 hello)
write_refines_example = write_refines one_file notes hello 4 one_file-IsValid (omega arith)

abbrev buffer : List ℕ
buffer = 9 ∷ 9 ∷ 9 ∷ 9 ∷ []

read_refines_example :
    Frodfs.read one_file (some notes) (some buffer) 3 (some 77)
    ≡ some (reading buffer 77 (Spec.read (view one_file) notes 3))
read_refines_example = read_refines one_file notes buffer 3 77 one_file-IsValid (omega arith)

abbrev script : List Call
script =
    Call.create notes
    ∷ Call.create notes
    ∷ Call.write notes hello 5
    ∷ Call.write hello notes 1
    ∷ Call.read notes buffer 3
    ∷ []

run_refines_example : run empty_table script ≡ run_spec (view empty_table) script
run_refines_example = run_refines script empty_table empty_table-IsValid (omega arith)

-- The same script, run.
run-script :
    run empty_table script
    ≡ Reply.code (pos 0)
      ∷ Reply.code (negsuc 1)
      ∷ Reply.code (pos 0)
      ∷ Reply.code (negsuc 1)
      ∷ Reply.bytes
          (some record { code = pos 0; buffer = b'h' ∷ b'e' ∷ b'l' ∷ 9 ∷ []; out_size = 3 })
      ∷ []
unfolding run empty_table blank_table blank_slot replicate Frodfs.init Frodfs.create Frodfs.write
    Frodfs.read file_exists claim_slot new_entry write_loop store_bytes read_loop strcmp copy_text
    copy_bytes
run-script = refl

list_lem_example :
    (l : List ℕ) × (n : ℕ) × IsLongest (lines one_file) 0 4 n l
    × (Frodfs.list one_file (some buffer) 4
        ≡ (some (l ++ (0 ∷ drop (suc (length l)) buffer)), pos 0))
    × (length l < 4)
    × (text (l ++ (0 ∷ drop (suc (length l)) buffer)) ≡ l)
list_lem_example =
    list_lem one_file buffer 4 one_file-IsValid (omega arith) (omega arith) (omega arith)

io_buffer : List ℕ
io_buffer = replicate 4096 0

long_name : List ℕ
long_name = replicate 40 b'x'

text-long_name : length (text long_name) ≡ 40
unfolding long_name replicate
text-long_name = refl

long_name_lost_example :
    ((Frodfs.create empty_table (some long_name)).1 ≡ pos 0)
    × ((Frodfs.write
          (Frodfs.create empty_table (some long_name)).0
          (some long_name)
          (some hello)
          5).1
        ≡ negsuc 1)
long_name_lost_example =
    long_name_lost empty_table long_name hello 5 empty_table-IsValid (omega (arith, text-long_name))
      free (omega arith)
  where
    free : free_slots empty_table ≢ 0
    free = unfold empty_table blank_table blank_slot replicate free_slots Frodfs.init in omega arith
