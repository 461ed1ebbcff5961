-- ===== src/FileSystem/Files/Reading.antt =====
-- fs_read_kr: what it returns, and what it leaves.
use sebopesyslab.Base.{
  ℕ, ◌+◌, ◌-◌, ◌^◌, ◌<◌, ◌≤◌, ◌≡◌, ◌≢◌, arith, leb, if◌then◌else◌, minus_one, lt→ltb, ne→==_false,
  eq→==,
}
use sebopesyslab.FileSystem.{Fs, nr_file_stream}
use sebopesyslab.FileSystem.Run.{done}
use sebopesyslab.FileSystem.Transfer.{read_base}
use sebopesyslab.FileSystem.Transfer.Content.{max_size}
use sebopesyslab.FileSystem.Transfer.Reads.{Reads}
use sebopesyslab.FileSystem.Transfer.Whole.{opened, read_base-Reads}
use sebopesyslab.FileSystem.Files.{cut, fs_read_kr}

-- The bytes from `pos` on, at most `len`, in a file of `size` bytes.
abbrev pub rest_of : (size pos len : ℕ) → ℕ
rest_of size pos len = if leb size (pos + len) then size - pos else len

-- The stream `fd` stands at `pos` in a file of `size` bytes.
pub record IsAt (k : Fs) (fd pos size : ℕ) : Type 0 where
  pub bound : fd < nr_file_stream
  pub here : (k.streams fd).offset ≡ pos
  pub length : (k.streams fd).file_size ≡ size
  pub before_end : pos ≤ size
  pub has_room : size < max_size

cut_lem :
    (k : Fs) (fd pos size len : ℕ)
    → IsAt k fd pos size
    → len < 2 ^ 31
    → cut (k.streams fd).offset len (k.streams fd).file_size ≡ rest_of size pos len
cut_lem k fd pos size len h b = rw (h.here, h.length) (ground (arith, b, h.before_end, h.has_room))

rest_of_le : (size pos len : ℕ) → pos ≤ size → pos + rest_of size pos len ≤ size
rest_of_le size pos len h = ground (arith, h)

module _ (k : Fs) (fd pos size buf len : ℕ) (h : IsAt k fd pos size) (b : len < 2 ^ 31) where
  fs_read_kr_front :
      {m : Fs}
      → rest_of size pos len ≢ 0
      → read_base fd buf (rest_of size pos len) k ≡ done tt m
      → fs_read_kr fd buf len k ≡ done (rest_of size pos len) m
  unfolding fs_read_kr
  fs_read_kr_front ne ran = rw (
    lt→ltb fd nr_file_stream h.bound,
    cut_lem k fd pos size len h b,
    ne→==_false (rest_of size pos len) 0 ne,
    ran,
  )

  -- For a stream at pos in a file of size below 64 KB, a read of len below 2^31 bytes, of which
  -- at least one is left, returns the number that is left, at most len; that many bytes of the
  -- file go to memory, the offset advances by it, and the disk, the rest of memory and the
  -- other streams stay.
  pub fs_read_kr-Reads :
      rest_of size pos len ≢ 0
      → Reads fd pos
          (rest_of size pos len)
          buf
          (opened fd k)
          (rest_of size pos len)
          (fs_read_kr fd buf len k)
  fs_read_kr-Reads ne =
      let whole =
        read_base-Reads fd h.bound buf (rest_of size pos len) k pos h.here
          (omega (arith, rest_of_le size pos len h.before_end, h.has_room)) in
      record { out = whole.out; ends = fs_read_kr_front ne whole.ends; copied = whole.copied }

  -- For a stream at pos, not past the end of a file of size below 64 KB, a read of len below
  -- 2^31 bytes, where len is 0 or pos is the end of the file, returns -1 and changes nothing.
  pub fs_read_kr_at_end : rest_of size pos len ≡ 0 → fs_read_kr fd buf len k ≡ done minus_one k
  unfolding fs_read_kr
  fs_read_kr_at_end e = rw (
    lt→ltb fd nr_file_stream h.bound,
    cut_lem k fd pos size len h b,
    eq→== (rest_of size pos len) 0 e,
  )
