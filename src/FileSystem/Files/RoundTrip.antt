-- ===== src/FileSystem/Files/RoundTrip.antt =====
-- A write, a seek back and a read.
use sebopesyslab.Base.{ℕ, ◌+◌, ◌-◌, ◌*◌, ◌<◌, ◌≤◌, ◌≡◌, ◌≢◌, refl, ap, ◌∙◌, arith, eq→==, lt→ltb}
use sebopesyslab.Kernel.{update}
use sebopesyslab.FileSystem.{Fs, loc_inode, nr_file_stream, block_size}
use sebopesyslab.FileSystem.Copying.{copy_inside}
use sebopesyslab.FileSystem.Run.{Op, done, ◌>>◌}
use sebopesyslab.FileSystem.Sectors.{readsect}
use sebopesyslab.FileSystem.Streams.{fs_lseek_kr}
use sebopesyslab.FileSystem.Transfer.Content.{content}
use sebopesyslab.FileSystem.Files.{fs_read_kr, fs_write_kr}
use sebopesyslab.FileSystem.Files.Reading.{IsAt, rest_of, fs_read_kr-Reads}
use sebopesyslab.FileSystem.Files.Writing.{inode_of, IsFile, fs_write_kr_inside}

abbrev sought : (fd pos : ℕ) → Fs → Fs
sought fd pos k = record k {
  streams = update k.streams fd (record (k.streams fd) { offset = pos });
}

fs_lseek_kr-ok :
    (fd pos : ℕ) (k : Fs) → fd < nr_file_stream → fs_lseek_kr fd pos k ≡ done tt (sought fd pos k)
unfolding fs_lseek_kr
fs_lseek_kr-ok fd pos k bound = rw (lt→ltb fd nr_file_stream bound)

-- The bytes at `buf` are written, and read again to `to`.
pub write_then_read : (fd pos buf len to : ℕ) → Op ℕ
write_then_read fd pos buf len to = do
  fs_write_kr fd buf len
  fs_lseek_kr fd pos
  fs_read_kr fd to len

write_then_read-ok :
    (fd pos buf len to : ℕ) (k : Fs) {n : ℕ} {j l : Fs}
    → fd < nr_file_stream
    → fs_write_kr fd buf len k ≡ done len j
    → fs_read_kr fd to len (sought fd pos j) ≡ done n l
    → write_then_read fd pos buf len to k ≡ done n l
unfolding write_then_read
write_then_read-ok fd pos buf len to k {j = j} bound wrote ran =
    rw (wrote, fs_lseek_kr-ok fd pos j bound, ran)

pub record Restored (buf len to : ℕ) (k : Fs) (fd pos : ℕ) : Type 0 where
  pub out : Fs
  pub ends : write_then_read fd pos buf len to k ≡ done len out
  pub same_bytes : (x : ℕ) → x < len → out.mem (to + x) ≡ k.mem (buf + x)

module _ (m fd pos size : ℕ) (k : Fs) (a : IsAt k fd pos size) (f : IsFile m fd k)
    (buf len to : ℕ) where
  -- For a stream at pos in a file of size below 64 KB whose inode and directory sectors lie in
  -- their areas, with an entry of the latter, and whose m blocks are different data blocks,
  -- writing len bytes, not none, that end within the size and before the last byte of the
  -- blocks, then seeking back to pos and reading len bytes to another address, returns len, and
  -- the bytes read are those written.
  pub fs_write_kr-fs_read_kr :
      len ≢ 0 → pos + len ≤ size → pos + len < m * block_size → Restored buf len to k fd pos
  fs_write_kr-fs_read_kr some_bytes h room =
      let w =
        fs_write_kr_inside m fd pos size k a f buf len (omega (arith, some_bytes, h)) h room in
      let v = w.rewritten in
      let s = sought fd pos w.out in
      let at : IsAt s fd pos size = record {
        bound = a.bound;
        here = ap (λ g. g.offset) (there w.out);
        length = ap (λ g. g.file_size) (there w.out) ∙ ap (λ g. g.file_size) v.advanced ∙ a.length;
        before_end = a.before_end;
        has_room = a.has_room;
      } in
      let all : rest_of size pos len ≡ len = ground (arith, h) in
      let r =
        fs_read_kr-Reads s fd pos size to len at (omega (arith, h, a.has_room))
          (omega (arith, all, some_bytes)) in
      record {
        out = r.out;
        ends =
            write_then_read-ok fd pos buf len to k a.bound w.ends
              (r.ends ∙ ap (λ n. done n r.out) all);
        same_bytes = λ x l.
            let p = pos + ((to + x) - to) in
            r.copied.memory (to + x)
            ∙ copy_inside (rest_of size pos len) w.out.mem to (content w.out.disk (inode_of fd s))
                pos (to + x) (omega arith) (omega (arith, all, l))
            ∙ ap (λ z. content w.out.disk z p) (inode-sought w.out ∙ v.same_inode)
            ∙ v.file p (omega (arith, l, room))
            ∙ copy_inside len (content k.disk (inode_of fd k)) pos k.mem buf p (omega arith)
                (omega (arith, l))
            ∙ ap k.mem (omega arith);
      }
    where
      there : (j : Fs) → (sought fd pos j).streams fd ≡ record (j.streams fd) { offset = pos }
      there j = rw (eq→== fd fd refl)

      inode-sought : (j : Fs) → inode_of fd (sought fd pos j) ≡ inode_of fd j
      inode-sought j = ap (λ g. readsect j.inode 0 (loc_inode g.inode_offset) j) (there j)
