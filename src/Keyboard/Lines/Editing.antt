-- ===== src/Keyboard/Lines/Editing.antt =====
-- readline of letters and backspaces: the line is what an editor of text makes of the keys.
use sebopesyslab.Base.{
  ℕ, zero, suc, ◌+◌, ◌-◌, ◌*◌, ◌≤◌, ◌<◌, ◌≡◌, refl, sym, ap, ◌∙◌, false, arith, ◌==◌, List, [], ◌∷◌,
  ◌++◌, length, none, some, eq→==, le→ltb_false,
}
use sebopesyslab.Base.Action.{ok}
use sebopesyslab.Kernel.{update}
use sebopesyslab.Keyboard.{letter}
use sebopesyslab.Keyboard.Codes.{poll_key}
use sebopesyslab.Keyboard.Codes.Letters.{letter_char, poll_key-letter}
use sebopesyslab.Keyboard.Lines.{
  Console, entered, read_on, read_char, readline_loop, readline, first_key, string_at, put_string,
  enter_line, keep_line, print, buf_len, history_line, nr_history,
}
use sebopesyslab.Keyboard.Lines.Strings.{
  Holds, Holds-update, IsText, reverse, string_at-reverse, string_at-put_string,
  IsText-reverse_onto, length-reverse_onto,
}
use sebopesyslab.Keyboard.Lines.Keys.{
  Key, character, backspace, codes, AreKeys, tail, edit, IsPlain, KeyFacts-letter, OtherFacts-plain,
  read_char-none, put, read_char-put, rubbed, read_char-backspace,
}

-- The state while a line is typed: `r` is its text, the last character first.
pub record Typing (s : ℕ) (r : List ℕ) (k0 k : Console) : Type 0 where
  pub shift : k.shift ≡ s
  pub holds : Holds k.buf r
  pub text : IsText r
  pub history : k.history ≡ k0.history
  pub history_id : k.history_id ≡ k0.history_id

-- One code, which is not 0x08.
readline_loop-step :
    (b c s i : ℕ) (bytes : List ℕ) (k : Console)
    → (b == 8) ≡ false
    → poll_key b k.shift ≡ (c, s)
    → readline_loop (b ∷ bytes) i k
      ≡ read_on (read_char c i (record k { shift = s })) bytes (λ j d. readline_loop bytes j d)
unfolding readline_loop
readline_loop-step b c s i bytes k e p =
    rw (e, readline_loop)
      (ap
        (λ (r : ℕ × ℕ).
          read_on (read_char r.0 i (record k { shift = r.1 })) bytes
            (λ j d. readline_loop bytes j d))
        p)

-- A code that gives no character and leaves the shift.
readline_loop-silent :
    (b s i : ℕ) (bytes : List ℕ) (k : Console)
    → (b == 8) ≡ false
    → k.shift ≡ s
    → poll_key b s ≡ (0, s)
    → readline_loop (b ∷ bytes) i k ≡ readline_loop bytes i k
unfolding read_on
readline_loop-silent b s i bytes k e h p =
    readline_loop-step b 0 (k.shift) i bytes k e (ap (poll_key b) h ∙ p ∙ ap (λ z. (0, z)) (sym h))
    ∙ rw (read_char-none i k) refl

-- After one key the loop goes on with the rest of the codes.
pub record Goes (s : ℕ) (r r' : List ℕ) (key bytes : List ℕ) (k0 k : Console) : Type 0 where
  pub out : Console
  pub ends : readline_loop (key ++ bytes) (length r) k ≡ readline_loop bytes (length r') out
  pub typing : Typing s r' k0 out

Goes-character :
    (i s : ℕ) (r bytes : List ℕ) (k0 k : Console)
    → i < 26
    → IsPlain s
    → length r < buf_len - 1
    → Typing s r k0 k
    → Goes s r (letter_char i s ∷ r) (letter i ∷ (letter i + 0x80) ∷ []) bytes k0 k
unfolding read_on
Goes-character i s r bytes k0 k b p l t =
    let c = letter_char i s in
    let f = KeyFacts-letter i s b p in
    let out = put c (length r) (record k { shift = s }) in
    record {
      out = out;
      ends =
          readline_loop-step (letter i) c s (length r) ((letter i + 0x80) ∷ bytes) k f.press_code
            (ap (poll_key (letter i)) t.shift ∙ poll_key-letter i s b p.0)
          ∙ rw (read_char-put c (length r) (record k { shift = s }) f.char_low f.char_high l) (
              readline_loop-silent (letter i + 0x80) s (length r + 1) bytes out f.release_code refl
                f.release
              ∙ ap (λ n. readline_loop bytes n out) (omega arith));
      typing = record {
        shift = refl;
        holds = (
          rw (eq→== (length r) (length r) refl) refl,
          Holds-update r (length r) c k.buf (omega arith) t.holds,
        );
        text = (λ z. omega (arith, z, f.char_low), t.text);
        history = t.history;
        history_id = t.history_id;
      };
    }

Typing-rubbed :
    (s : ℕ) (r : List ℕ) (k0 k : Console)
    → Typing s r k0 k
    → Typing s (tail r) k0 (rubbed (length r) (record k { shift = s }))
Typing-rubbed s [] k0 k t = record {
  shift = refl;
  holds = tt;
  text = tt;
  history = t.history;
  history_id = t.history_id;
}
Typing-rubbed s (c ∷ r) k0 k t = record {
  shift = refl;
  holds = t.holds.1;
  text = t.text.1;
  history = t.history;
  history_id = t.history_id;
}

length-tail : (r : List ℕ) → length r - 1 ≡ length (tail r)
length-tail [] = refl
length-tail (c ∷ r) = omega arith

rubbed-shift : (n : ℕ) (k : Console) → (rubbed n k).shift ≡ k.shift
rubbed-shift zero k = refl
rubbed-shift (suc n) k = refl

Goes-backspace :
    (s : ℕ) (r bytes : List ℕ) (k0 k : Console)
    → IsPlain s
    → Typing s r k0 k
    → Goes s r (tail r) (0x0e ∷ 0x8e ∷ []) bytes k0 k
unfolding read_on
Goes-backspace s r bytes k0 k p t =
    let f = OtherFacts-plain s p in
    let k' = record k { shift = s } in
    let out = rubbed (length r) k' in
    record {
      out = out;
      ends =
          readline_loop-step 0x0e 8 s (length r) (0x8e ∷ bytes) k refl
            (ap (poll_key 0x0e) t.shift ∙ f.press)
          ∙ rw (read_char-backspace (length r) k') (
              readline_loop-silent 0x8e s (length r - 1) bytes out refl (rubbed-shift (length r) k')
                f.release
              ∙ ap (λ n. readline_loop bytes n out) (length-tail r));
      typing = Typing-rubbed s r k0 k t;
    }

-- The line is returned and is in the history, with the next index.
pub record Enters (s : ℕ) (line bytes : List ℕ) (i : ℕ) (rest : List ℕ) (k0 k : Console)
    : Type 0 where
  pub out : Console
  pub ends : readline_loop bytes i k ≡ entered rest out
  pub in_buf : string_at buf_len out.buf 0 ≡ some line
  pub in_history :
      string_at
        (nr_history * history_line - k0.history_id * history_line)
        out.history
        (k0.history_id * history_line)
      ≡ some line
  pub next_id : out.history_id ≡ k0.history_id + 1
  pub shift : out.shift ≡ s

abbrev stored : (i : ℕ) (line : List ℕ) → Console → Console
stored i line k = record k {
  printed = 0x0a ∷ k.printed;
  buf = update k.buf i 0;
  history = put_string (k.history_id * history_line) line k.history;
  history_id = k.history_id + 1;
}

enter_line-stored :
    (i : ℕ) (line : List ℕ) (k : Console)
    → string_at buf_len (update k.buf i 0) 0 ≡ some line
    → k.history_id * history_line + length line + 1 ≤ nr_history * history_line
    → enter_line i k ≡ ok tt (stored i line k)
unfolding enter_line keep_line
enter_line-stored i line k e b =
    let ended = record k { printed = 0x0a ∷ k.printed; buf = update k.buf i 0 } in
    ap (λ o. keep_line o ended) e
    ∙ rw
        (le→ltb_false (nr_history * history_line) (k.history_id * history_line + length line + 1) b)
        refl

read_char-enter :
    (i : ℕ) (k out : Console) → enter_line i k ≡ ok tt out → read_char 0x0a i k ≡ ok none out
unfolding read_char
read_char-enter i k out e = rw e refl

enter_line-Enters :
    (s : ℕ) (r rest : List ℕ) (k0 k : Console)
    → IsPlain s
    → length r < buf_len
    → k0.history_id * history_line + length r < nr_history * history_line
    → Typing s r k0 k
    → Enters s (reverse r) (0x1c ∷ rest) (length r) rest k0 k
unfolding read_on
enter_line-Enters s r rest k0 k p l b t =
    let f = OtherFacts-plain s p in
    let k' = record k { shift = s } in
    let line = reverse r in
    let size : length line ≡ length r = length-reverse_onto r [] ∙ omega arith in
    let text : string_at buf_len (update k.buf (length r) 0) 0 ≡ some line =
      string_at-reverse r buf_len (update k.buf (length r) 0)
        (Holds-update r (length r) 0 k.buf (omega arith) t.holds) t.text
        (rw (eq→== (length r) (length r) refl) refl) l in
    let fits : k.history_id * history_line + length line + 1 ≤ nr_history * history_line =
      omega (arith, b, size, t.history_id) in
    let room = nr_history * history_line - k.history_id * history_line in
    record {
      out = stored (length r) line k';
      ends =
          readline_loop-step 0x1c 0x0a s (length r) rest k refl
            (ap (poll_key 0x1c) t.shift ∙ f.enter)
          ∙ rw
              (read_char-enter (length r) k' (stored (length r) line k')
                (enter_line-stored (length r) line k' text fits))
              refl;
      in_buf = text;
      in_history =
          ap
            (λ id.
              string_at (nr_history * history_line - id * history_line)
                (put_string (k.history_id * history_line) line k.history) (id * history_line))
            (sym t.history_id)
          ∙ string_at-put_string line (k.history_id * history_line) room k.history
              (IsText-reverse_onto r [] t.text tt) (omega (arith, fits));
      next_id = ap (λ z. z + 1) t.history_id;
      shift = refl;
    }

length-edit : (s : ℕ) (ks : List Key) (r : List ℕ) → length (edit s ks r) ≤ length ks + length r
length-edit s [] r = omega arith
length-edit s (character i ∷ ks) r = omega (arith, length-edit s ks (letter_char i s ∷ r))
length-edit s (backspace ∷ ks) r = omega (arith, length-edit s ks (tail r), length-tail r)

Enters-keys :
    (ks : List Key) (s : ℕ) (r rest : List ℕ) (k0 k : Console)
    → AreKeys ks
    → IsPlain s
    → length ks + length r < buf_len
    → k0.history_id * history_line + (length ks + length r) < nr_history * history_line
    → Typing s r k0 k
    → Enters s (reverse (edit s ks r)) (codes ks ++ (0x1c ∷ rest)) (length r) rest k0 k
Enters-keys [] s r rest k0 k a p l b t =
    enter_line-Enters s r rest k0 k p (omega (arith, l)) (omega (arith, b)) t
Enters-keys (character i ∷ ks) s r rest k0 k a p l b t =
    let g = Goes-character i s r (codes ks ++ (0x1c ∷ rest)) k0 k a.0 p (omega (arith, l)) t in
    let e =
      Enters-keys ks s (letter_char i s ∷ r) rest k0 g.out a.1 p (omega (arith, l))
        (omega (arith, b)) g.typing in
    record {
      out = e.out;
      ends = g.ends ∙ e.ends;
      in_buf = e.in_buf;
      in_history = e.in_history;
      next_id = e.next_id;
      shift = e.shift;
    }
Enters-keys (backspace ∷ ks) s r rest k0 k a p l b t =
    let g = Goes-backspace s r (codes ks ++ (0x1c ∷ rest)) k0 k p t in
    let shorter : length (tail r) ≤ length r = omega (arith, length-tail r) in
    let e =
      Enters-keys ks s (tail r) rest k0 g.out a p (omega (arith, l, shorter))
        (omega (arith, b, shorter)) g.typing in
    record {
      out = e.out;
      ends = g.ends ∙ e.ends;
      in_buf = e.in_buf;
      in_history = e.in_history;
      next_id = e.next_id;
      shift = e.shift;
    }

pub record Printed (cs : List ℕ) (k : Console) : Type 0 where
  pub out : Console
  pub ends : print cs k ≡ ok tt out
  pub same : Typing k.shift [] k out

print-Printed : (cs : List ℕ) (k : Console) → Printed cs k
unfolding print
print-Printed [] k = record {
  out = k;
  ends = refl;
  same = record { shift = refl; holds = tt; text = tt; history = refl; history_id = refl };
}
print-Printed (c ∷ cs) k =
    let p = print-Printed cs (record k { printed = c ∷ k.printed }) in
    record {
      out = p.out;
      ends = p.ends;
      same = record {
        shift = p.same.shift;
        holds = tt;
        text = tt;
        history = p.same.history;
        history_id = p.same.history_id;
      };
    }

pub record Returns (s : ℕ) (line prompt bytes rest : List ℕ) (k : Console) : Type 0 where
  pub out : Console
  pub ends : readline prompt bytes k ≡ entered rest out
  pub in_buf : string_at buf_len out.buf 0 ≡ some line
  pub in_history :
      string_at
        (nr_history * history_line - k.history_id * history_line)
        out.history
        (k.history_id * history_line)
      ≡ some line
  pub next_id : out.history_id ≡ k.history_id + 1
  pub shift : out.shift ≡ s

-- With the shift keys in any state but CTL or a pending 0xe0, the keys of letters and
-- backspace, which go down and up, and then Enter, make readline return the text that these
-- keys make in an editor that adds a character or drops the last one, a backspace at the start
-- being ignored; the text is in buf and, with room for it, in the history at the old index, and
-- the index is one more. There are at most 1023 keys, and the rest of the input is left.
pub readline-Enters :
    (prompt : List ℕ) (ks : List Key) (s : ℕ) (rest : List ℕ) (k : Console)
    → AreKeys ks
    → IsPlain s
    → k.shift ≡ s
    → length ks < buf_len
    → k.history_id * history_line + length ks < nr_history * history_line
    → Returns s (reverse (edit s ks [])) prompt (codes ks ++ (0x1c ∷ rest)) rest k
unfolding readline first_key
readline-Enters prompt ks s rest k a p h l b =
    let q = print-Printed prompt k in
    let t : Typing s [] k q.out = record {
      shift = q.same.shift ∙ h;
      holds = tt;
      text = tt;
      history = q.same.history;
      history_id = q.same.history_id;
    } in
    let e = Enters-keys ks s [] rest k q.out a p (omega (arith, l)) (omega (arith, b)) t in
    record {
      out = e.out;
      ends = ap (λ o. first_key o (codes ks ++ (0x1c ∷ rest))) q.ends ∙ e.ends;
      in_buf = e.in_buf;
      in_history = e.in_history;
      next_id = e.next_id;
      shift = e.shift;
    }
