-- ===== src/Keyboard/Lines.antt =====
-- getchar and readline of kernel/src/keyboard.c. The input is the list of bytes that the reads of
-- port 0x60 give; where it ends, the kernel waits in wait_key. `printed` has the characters that
-- cputchar was given, the last one first.
pub mod Strings
pub mod Keys
pub mod Editing
use sebopesyslab.Base.{
  ℕ, zero, suc, ◌+◌, ◌-◌, ◌*◌, ◌/◌, ◌%◌, ◌^◌, Bool, true, false, ◌&&◌, ◌||◌, ◌==◌, if◌then◌else◌,
  leb, ltb, List, [], ◌∷◌, length, Option, none, some,
}
use sebopesyslab.Base.Action.{Outcome, Action, ok, fault, pure, get, modify, refuse, ◌>>=◌, ◌>>◌}
use sebopesyslab.Kernel.{update}
use sebopesyslab.Keyboard.Codes.{poll_key, key_up, key_dn}

-- BUFLEN
abbrev pub buf_len : ℕ
buf_len = 1024

abbrev pub history_line : ℕ
history_line = 512

abbrev pub nr_history : ℕ
nr_history = 200

-- `history` is the array of arrays, as it lies in the memory.
pub record Console : Type 0 where
  pub shift : ℕ
  pub buf : ℕ → ℕ
  pub history : ℕ → ℕ
  pub history_id : ℕ
  pub printed : List ℕ

-- The string in the `n` bytes from `i` on, if it ends there.
pub string_at : (n : ℕ) → (ℕ → ℕ) → (i : ℕ) → Option (List ℕ)
string_at zero mem i = none
string_at (suc n) mem i =
    let rest = string_at n mem (i + 1) in
    if mem i == 0 then some [] else elim rest [ none ↦ none | some cs ↦ some (mem i ∷ cs) ]

-- strcpy of that string to `i`.
pub put_string : (i : ℕ) → List ℕ → (ℕ → ℕ) → (ℕ → ℕ)
put_string i [] mem = update mem i 0
put_string i (c ∷ cs) mem = put_string (i + 1) cs (update mem i c)

abbrev pub cputchar : ℕ → Action Console (Unit {0})
cputchar c = modify (λ k. record k { printed = c ∷ k.printed })

unfoldable pub print : List ℕ → Action Console (Unit {0})
print [] = pure tt
print (c ∷ cs) = do cputchar c; print cs

-- Back, blank, back, `i` times.
unfoldable pub rub_out : (i : ℕ) → Action Console (Unit {0})
rub_out zero = pure tt
rub_out (suc i) = do cputchar 0x08; cputchar b' '; cputchar 0x08; rub_out i

-- The new index is `id`: its line takes the place of the `i` characters. The result is its length.
unfoldable pub recall : (id i : ℕ) → Action Console ℕ
recall id i = do
  modify (λ k. record k { history_id = id })
  k ← get
  elim (string_at (nr_history * history_line - id * history_line) k.history (id * history_line)) [
    | none ↦ refuse
    | some line ↦ (do
      if leb buf_len (length line) then refuse else pure tt
      modify (λ c. record c { buf = put_string 0 line c.buf })
      rub_out i
      c ← get
      elim (string_at buf_len c.buf 0) [
        | none ↦ refuse
        | some cs ↦ (do print cs; pure (length cs))
      ])
  ]

-- strcpy of a line into the history.
unfoldable pub keep_line : Option (List ℕ) → Action Console (Unit {0})
keep_line none k = fault
keep_line (some line) k =
    let at = k.history_id * history_line in
    if ltb (nr_history * history_line) (at + length line + 1)
    then fault
    else ok tt (record k { history = put_string at line k.history; history_id = k.history_id + 1 })

-- The end of a line of `i` characters, which goes into the history.
unfoldable pub enter_line : (i : ℕ) → Action Console (Unit {0})
enter_line i = do
  cputchar 0x0a
  modify (λ k. record k { buf = update k.buf i 0 })
  k ← get
  keep_line (string_at buf_len k.buf 0)

-- What readline does with character `c` after `i` characters: how many there are then, unless the
-- line ends.
unfoldable pub read_char : (c i : ℕ) → Action Console (Option ℕ)
read_char c i =
    if c == key_up
    then (do
      k ← get
      if ltb 0 k.history_id
          then (do n ← recall (k.history_id - 1) i; pure (some n))
          else pure (some i))
    else if c == key_dn
    then (do
      k ← get
      if ltb k.history_id (nr_history - 1)
          then (do n ← recall (k.history_id + 1) i; pure (some n))
          else pure (some i))
    else if (c == 0x08 || c == 0x7f) && ltb 0 i
    then (do rub_out 1; pure (some (i - 1)))
    else if leb b' ' c && ltb i (buf_len - 1)
    then (do cputchar c; modify (λ k. record k { buf = update k.buf i c }); pure (some (i + 1)))
    else if c == 0x0a || c == 0x0d
    then (do enter_line i; pure none)
    else pure (some i)

-- readline returns, with the rest of the input and the line in `buf`; it waits for a key after `i`
-- characters; or an access leaves its array.
pub data Reading : Type 0 where
  entered : List ℕ → Console → Reading
  waits : ℕ → Console → Reading
  failed : Reading

pub read_on : Outcome Console (Option ℕ) → List ℕ → (ℕ → Console → Reading) → Reading
read_on fault bytes loop = failed
read_on (ok none k) bytes loop = entered bytes k
read_on (ok (some i) k) bytes loop = loop i k

-- poll_key reads again on 0x08.
unfoldable pub readline_loop : List ℕ → (i : ℕ) → Console → Reading
readline_loop [] i k = waits i k
readline_loop (b ∷ bytes) i k = elim (b == 0x08) [
  | true ↦ readline_loop bytes i k
  | false ↦
      (let r = poll_key b k.shift in
        read_on (read_char r.0 i (record k { shift = r.1 })) bytes (λ j c. readline_loop bytes j c))
]

-- The first character is read once the prompt is printed.
unfoldable pub first_key : Outcome Console (Unit {0}) → List ℕ → Reading
first_key fault bytes = failed
first_key (ok u k) bytes = readline_loop bytes 0 k

-- `prompt` is empty for NULL.
unfoldable pub readline : (prompt bytes : List ℕ) → Console → Reading
readline prompt bytes k = first_key (print prompt k) bytes
