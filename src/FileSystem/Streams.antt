-- ===== src/FileSystem/Streams.antt =====
-- The table of file streams and the directory of kernel/src/fs/file.c: fs_open_kr, fs_create_kr,
-- fs_close_kr, fs_lseek_kr, fs_size_kr. A name is the list of its bytes, none of which is 0.
use sebopesyslab.Base.{
  ℕ, zero, suc, ◌+◌, ◌*◌, Bool, ◌==◌, ltb, if◌then◌else◌, List, [], ◌∷◌, Option, none, some, length,
  get_or, sub32, minus_one,
}
use sebopesyslab.Base.Search.{first_from}
use sebopesyslab.FileSystem.{
  Stream, Bytes, copy, word, put_word, block_size, len_filename, nr_entries, nr_file_stream, sc_dir,
}
use sebopesyslab.FileSystem.Run.{
  Op, crash, pure, get, modify, ◌>>=◌, ◌>>◌, load_stream, store_stream,
}
use sebopesyslab.FileSystem.Sectors.{read_dir, save_dir, read_inode, save_inode}
use sebopesyslab.FileSystem.Alloc.{inode_alloc}

-- The fields of `dir.entries[e]`.
abbrev pub entry_filename : ℕ → ℕ
entry_filename e = 32 * e

abbrev pub entry_file_size : ℕ → ℕ
entry_file_size e = 8 * e + 6

abbrev pub entry_inode_offset : ℕ → ℕ
entry_inode_offset e = 8 * e + 7

-- strcmp of the string at `s + i` with a name
abbrev pub strcmp : (s : Bytes) (i : ℕ) → List ℕ → ℕ
strcmp s i [] = s i
strcmp s i (c ∷ cs) =
    if s i == 0 then sub32 0 c else if s i == c then strcmp s (i + 1) cs else sub32 (s i) c

-- strcpy of a name to `to + i`
abbrev pub strcpy : (to : Bytes) (i : ℕ) → List ℕ → Bytes
strcpy to i name = copy (length name + 1) to i (λ j. get_or name j 0) 0

-- The string at `s + i`, when it has no more than `n` bytes.
abbrev pub c_string : ℕ → (s : Bytes) (i : ℕ) → Option (List ℕ)
c_string zero s i = if s i == 0 then some [] else none
c_string (suc n) s i =
    if s i == 0
    then some []
    else elim (c_string n s (i + 1)) [ none ↦ none | some cs ↦ some (s i ∷ cs) ]

-- The first entry of the directory that passes, its sector being in the buffer then.
pub find_entry : (Bytes → ℕ → Bool) → ℕ → ℕ → Op (Option (ℕ × ℕ))
find_entry test zero d = pure none
find_entry test (suc n) d = do
  read_dir d
  k ← get
  let e = first_from nr_entries 0 (test k.dir)
  if e == nr_entries then find_entry test n (d + 1) else pure (some (d, e))

-- `strcpy(fs[i].filename, ...)`: `used` lies behind the 24 bytes of `filename`.
abbrev pub set_filename : List ℕ → Stream → Stream
set_filename name f = record f {
  filename = name;
  used = if length name == len_filename then 0 else f.used;
}

-- The loop that takes the first unused stream for the entry `e` of the directory sector `d`.
pub take_stream : (d e : ℕ) → Op ℕ
take_stream d e = do
  k ← get
  let i = first_from nr_file_stream 0 (λ i. (k.streams i).used == 0)
  if i == nr_file_stream then pure minus_one else do
    store_stream i (λ f. record f { used = 1; file_size = word k.dir (entry_file_size e) })
    elim (c_string len_filename k.dir (entry_filename e)) [
      | none ↦ λ _. crash
      | some name ↦ store_stream i (set_filename name)
    ]
    store_stream i (λ f. record f {
      inode_offset = word k.dir (entry_inode_offset e);
      offset = 0;
      dir_offset = d;
      entry_offset = e;
    })
    pure i

pub fs_open_kr : List ℕ → Op ℕ
fs_open_kr name = do
  found ← find_entry (λ dir e. strcmp dir (entry_filename e) name == 0) sc_dir 0
  elim found [ none ↦ pure minus_one | some p ↦ take_stream p.0 p.1 ]

-- `dir.entries[e].filename` takes the name; past the end of the sector it is another variable.
abbrev pub name_entry : ℕ → List ℕ → Op (Unit {0})
name_entry e name =
    if ltb block_size (entry_filename e + length name + 1)
    then (λ _. crash)
    else modify (λ k. record k { dir = strcpy k.dir (entry_filename e) name })

pub fs_create_kr : List ℕ → Op ℕ
fs_create_kr name = do
  found ← find_entry (λ dir e. word dir (entry_inode_offset e) == minus_one) sc_dir 0
  elim found [
    | none ↦ pure minus_one
    | some p ↦ (do
      i ← inode_alloc
      modify (λ k. record k { dir = put_word k.dir (entry_inode_offset p.1) i })
      name_entry p.1 name
      modify (λ k. record k { dir = put_word k.dir (entry_file_size p.1) 0 })
      save_dir p.0
      read_inode i
      modify (λ k. record k { inode = copy block_size k.inode 0 (λ _. 0xff) 0 })
      save_inode i
      take_stream p.0 p.1)
  ]

unfoldable pub fs_lseek_kr : (fd index : ℕ) → Op (Unit {0})
fs_lseek_kr fd index = store_stream fd (λ f. record f { offset = index })

pub fs_size_kr : ℕ → Op ℕ
fs_size_kr fd = do f ← load_stream fd; pure f.file_size

pub fs_close_kr : ℕ → Op ℕ
fs_close_kr fd = do
  f ← load_stream fd
  if f.used == 0 then pure 1 else do store_stream fd (λ f. record f { used = 0 }); pure 0
