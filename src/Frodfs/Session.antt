-- ===== src/Frodfs/Session.antt =====
-- `frodfs_init`, and sequences of calls against the file map.
use mathlib.Core.Path.{fun_ext}
use frod_os.Prelude.{
  ℕ, suc, ◌≤◌, ◌≡◌, inl, refl, ap, ◌∙◌, List, [], ◌∷◌, Option, none, some, ℤ, arith, length, take,
  All, length-set, set,
}
use frod_os.CString.{text}
use frod_os.Frodfs
use frod_os.Frodfs.{
  Entry, Storage, Reading, init, clear_entry, fs_max_files, fs_max_name, fs_max_size,
}
use frod_os.Frodfs.Create.{view, create_refines, create-IsValid}
use frod_os.Frodfs.Write.{write_refines, write-IsValid}
use frod_os.Frodfs.Read.{reading, read_refines}
use frod_os.Frodfs.Valid.{IsEntry, IsValid, Unique, lookup, free_slots}
use frod_os.Frodfs.Spec
use frod_os.Frodfs.Spec.{FileMap}

-- The static array before `frodfs_init`: its shape is known, its bytes are not.
abbrev pub HasRoom : Entry → Type 0
HasRoom e = (length e.name ≡ fs_max_name) × (length e.contents ≡ fs_max_size)

text-set_zero : (xs : List ℕ) → text (set xs 0 0) ≡ []
text-set_zero [] = refl
text-set_zero (x ∷ xs) = refl

clear_entry-IsEntry : (e : Entry) → HasRoom e → IsEntry (clear_entry e)
unfolding clear_entry
clear_entry-IsEntry e h = record {
  name_room = length-set e.name 0 0 ∙ h.0;
  terminated = rw text-set_zero (omega arith);
  room = h.1;
  fits = omega arith;
  flag = inl refl;
  named = λ n. absurd (n refl);
}

init-All : (s : Storage) → All HasRoom s → All IsEntry (init s)
unfolding init
init-All [] h = tt
init-All (e ∷ s) h = (clear_entry-IsEntry e h.0, init-All s h.1)

length-init : (s : Storage) → length (init s) ≡ length s
unfolding init
length-init [] = refl
length-init (e ∷ s) = ap suc (length-init s)

init-Unique : (s : Storage) → Unique (init s)
unfolding init
init-Unique [] = tt
init-Unique (e ∷ s) = (λ n. absurd (n refl), init-Unique s)

lookup-init : (s : Storage) (k : List ℕ) → lookup (init s) k ≡ none
unfolding init lookup
lookup-init [] k = refl
lookup-init (e ∷ s) k = lookup-init s k

free_slots-init : (s : Storage) → free_slots (init s) ≡ length s
unfolding init free_slots
free_slots-init [] = refl
free_slots-init (e ∷ s) = ap suc (free_slots-init s)

-- From a table of 32 slots whose arrays have their sizes, `frodfs_init` makes a valid table that
-- holds no file and has 32 free slots.
pub init-IsValid :
    (s : Storage)
    → length s ≡ fs_max_files
    → All HasRoom s
    → IsValid (init s) × (view (init s) ≡ record { files = λ k. none; free = 32 })
init-IsValid s n h = (
  record { slots = length-init s ∙ n; entries = init-All s h; unique = init-Unique s },
  λ i. record { files = fun_ext (lookup-init s) i; free = (free_slots-init s ∙ n) i },
)

-- A client's calls, with the buffers that it passes.
pub data Call : Type 0 where
  create : List ℕ → Call
  write : List ℕ → List ℕ → ℕ → Call
  read : List ℕ → List ℕ → ℕ → Call

-- What a call gives back.
pub data Reply : Type 0 where
  code : ℤ → Reply
  bytes : Option Reading → Reply

-- The names fit a slot, and the buffers hold the sizes that are passed with them.
abbrev IsCall : Call → Type 0
IsCall (create name) = length (text name) ≤ 31
IsCall (write name buffer size) = size ≤ length buffer
IsCall (read name buffer max_size) = max_size ≤ length buffer

unfoldable pub run : Storage → List Call → List Reply
run s [] = []
run s (Call.create name ∷ calls) =
    let (s', c) = Frodfs.create s (some name) in code c ∷ run s' calls
run s (Call.write name buffer size ∷ calls) =
    let (s', c) = Frodfs.write s (some name) (some buffer) size in code c ∷ run s' calls
run s (Call.read name buffer max_size ∷ calls) =
    bytes (Frodfs.read s (some name) (some buffer) max_size (some 0)) ∷ run s calls

unfoldable pub run_spec : FileMap → List Call → List Reply
run_spec m [] = []
run_spec m (Call.create name ∷ calls) =
    let (m', c) = Spec.create m (text name) in code c ∷ run_spec m' calls
run_spec m (Call.write name buffer size ∷ calls) =
    let (m', c) = Spec.write m (text name) (take size buffer) in code c ∷ run_spec m' calls
run_spec m (Call.read name buffer max_size ∷ calls) =
    bytes (some (reading buffer 0 (Spec.read m (text name) max_size))) ∷ run_spec m calls

-- No sequence of creates, writes and reads, with names of at most 31 bytes and buffers that hold
-- the sizes passed, tells a valid table from the map of its files: every reply is the same.
pub run_refines :
    (calls : List Call) (s : Storage)
    → IsValid s
    → All IsCall calls
    → run s calls ≡ run_spec (view s) calls
unfolding run run_spec
run_refines [] s v h = refl
run_refines (Call.create name ∷ calls) s v h = rw (
  run_refines calls (Frodfs.create s (some name)).0 (create-IsValid s name v h.0) h.1,
  ← create_refines s name v h.0,
)
run_refines (Call.write name buffer size ∷ calls) s v h = rw (
  run_refines calls (Frodfs.write s (some name) (some buffer) size).0
      (write-IsValid s name buffer size v h.0) h.1,
  ← write_refines s name buffer size v h.0,
)
run_refines (Call.read name buffer max_size ∷ calls) s v h =
    rw (run_refines calls s v h.1, read_refines s name buffer max_size 0 v h.0)
