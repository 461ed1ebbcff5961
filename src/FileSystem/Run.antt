-- ===== src/FileSystem/Run.antt =====
-- Commands of the file system. A run ends with a result, at an access outside an array, or without
-- fuel.
use sebopesyslab.Base.{ℕ, if◌then◌else◌, ltb}
use sebopesyslab.Kernel.{update}
use sebopesyslab.FileSystem.{Fs, Stream, nr_file_stream}

pub data Result (A : Type 0) : Type 0 where
  done : A → Fs → Result A
  crash : Result A
  out_of_fuel : Result A

abbrev pub Op : Type 0 → Type 0
Op A = Fs → Result A

abbrev pub pure : {A : Type 0} → A → Op A
pure a k = done a k

module _ {A B : Type 0} where
  abbrev pub and_then : Result A → (A → Op B) → Result B
  and_then (done a k) f = f a k
  and_then crash f = crash
  and_then out_of_fuel f = out_of_fuel

  infixl 5 ◌>>=◌ ◌>>◌
  abbrev pub ◌>>=◌ : Op A → (A → Op B) → Op B
  m >>= f = λ k. and_then (m k) f

  abbrev pub ◌>>◌ : Op A → Op B → Op B
  m >> n = m >>= λ _. n

abbrev pub get : Op Fs
get k = done k k

abbrev pub modify : (Fs → Fs) → Op (Unit {0})
modify f k = done tt (f k)

-- `fs[fd]`, and an assignment to a field of it
abbrev pub load_stream : ℕ → Op Stream
load_stream fd k = if ltb fd nr_file_stream then done (k.streams fd) k else crash

abbrev pub set_stream : ℕ → Stream → Fs → Fs
set_stream fd f k = record k { streams = update k.streams fd f }

abbrev pub store_stream : ℕ → (Stream → Stream) → Op (Unit {0})
store_stream fd g k =
    if ltb fd nr_file_stream then done tt (set_stream fd (g (k.streams fd)) k) else crash
