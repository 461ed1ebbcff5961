-- ===== src/FileSystem/Ports.antt =====
-- The functions `_port` of kernel/src/fs/file.c, through the FCBs of the current process, and
-- fs_ls_kr and init_fs.
use sebopesyslab.Base.{
  ℕ, zero, suc, ◌+◌, ◌/◌, not, ◌&&◌, ◌||◌, ◌==◌, ltb, if◌then◌else◌, List, [], ◌∷◌, ◌++◌, bit_and,
  is_negative, minus_one,
}
use sebopesyslab.Base.Search.{first_from}
use sebopesyslab.Kernel.{update}
use sebopesyslab.FileSystem.{Bytes, word, nr_entries, nr_file_stream, sc_dir}
use sebopesyslab.FileSystem.Run.{Op, crash, pure, get, ◌>>=◌, ◌>>◌, store_stream}
use sebopesyslab.FileSystem.Sectors.{read_dir}
use sebopesyslab.FileSystem.Streams.{
  entry_filename, entry_file_size, entry_inode_offset, fs_open_kr, fs_close_kr,
}
use sebopesyslab.FileSystem.Files.{
  fs_open_md, fs_read_md, fs_write_md, fs_lseek_md, fs_close_md, fs_read_kr,
}

-- FCBMAX
abbrev pub fcb_max : ℕ
fcb_max = 256

-- `current->fcb[fd].fd_kr`, and an assignment to it
abbrev pub load_fcb : ℕ → Op ℕ
load_fcb fd k = if ltb fd fcb_max then pure (k.fcb fd) k else crash

abbrev pub store_fcb : ℕ → ℕ → Op (Unit {0})
store_fcb fd v k = if ltb fd fcb_max then pure tt (record k { fcb = update k.fcb fd v }) else crash

pub fs_open_port : List ℕ → (flags : ℕ) → Op ℕ
fs_open_port pathname flags = do
  fd ← fs_open_md pathname flags
  if fd == minus_one then pure minus_one else do
    k ← get
    let i = first_from fcb_max 0 (λ i. k.fcb i == minus_one)
    store_fcb i fd
    pure i

pub fs_read_port : (fd buf len : ℕ) → Op ℕ
fs_read_port fd buf len =
    if fd == minus_one then pure minus_one else do kr ← load_fcb fd; fs_read_md kr buf len

pub fs_write_port : (fd buf len : ℕ) → Op ℕ
fs_write_port fd buf len =
    if fd == minus_one then pure minus_one else do kr ← load_fcb fd; fs_write_md kr buf len

pub fs_lseek_port : (fd offset whence : ℕ) → Op ℕ
fs_lseek_port fd offset whence =
    if fd == minus_one then pure minus_one else do kr ← load_fcb fd; fs_lseek_md kr offset whence

pub fs_close_port : ℕ → Op ℕ
fs_close_port fd =
    if fd == minus_one
    then pure minus_one
    else do kr ← load_fcb fd; ret ← fs_close_md kr; store_fcb fd minus_one; pure ret

-- What fs_ls_kr prints of an entry: its name, which starts at that byte of the directory sector,
-- alone or behind its size in a unit.
pub data Line : Type 0 where
  name_line : ℕ → Line
  bytes_line kilo_line mega_line : (size name : ℕ) → Line

-- `size < 1024` and `size /= 1024` on ints that are not negative
abbrev pub human_line : (size name : ℕ) → List Line
human_line size name =
    if is_negative size || ltb size 1024
    then bytes_line size name ∷ []
    else if ltb (size / 1024) 1024
    then kilo_line (size / 1024) name ∷ []
    else if ltb (size / 1024 / 1024) 1024
    then mega_line (size / 1024 / 1024) name ∷ []
    else []

abbrev pub ls_entry : (mask : ℕ) → Bytes → ℕ → List Line
ls_entry mask dir e =
    let name = entry_filename e in
    let size = word dir (entry_file_size e) in
    if word dir (entry_inode_offset e) == minus_one
    then []
    else if (bit_and mask 2 == 0) && (dir name == 46)
    then []
    else if bit_and mask 1 == 0
    then name_line name ∷ []
    else if not (bit_and mask 4 == 0)
    then human_line size name
    else bytes_line size name ∷ []

abbrev pub ls_entries : ℕ → ℕ → (mask : ℕ) → Bytes → List Line
ls_entries zero e mask dir = []
ls_entries (suc n) e mask dir = ls_entry mask dir e ++ ls_entries n (e + 1) mask dir

pub ls_sectors : ℕ → ℕ → (mask : ℕ) → Op (List Line)
ls_sectors zero d mask = pure []
ls_sectors (suc n) d mask = do
  read_dir d
  k ← get
  rest ← ls_sectors n (d + 1) mask
  pure (ls_entries nr_entries 0 mask k.dir ++ rest)

pub fs_ls_kr : (mask : ℕ) → Op (List Line)
fs_ls_kr mask = ls_sectors sc_dir 0 mask

pub clear_streams : ℕ → ℕ → Op (Unit {0})
clear_streams zero i = pure tt
clear_streams (suc n) i = do store_stream i (λ f. record f { used = 0 }); clear_streams n (i + 1)

-- The bytes of "test.txt".
abbrev test_txt : List ℕ
test_txt = 116 ∷ 101 ∷ 115 ∷ 116 ∷ 46 ∷ 116 ∷ 120 ∷ 116 ∷ []

-- `magic` is the address of a local array.
pub init_fs : (magic : ℕ) → Op (Unit {0})
init_fs magic = do
  clear_streams nr_file_stream 0
  fd ← fs_open_kr test_txt
  n ← fs_read_kr fd magic 80
  c ← fs_close_kr fd
  pure tt
