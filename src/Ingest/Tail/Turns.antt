-- ===== src/Ingest/Tail/Turns.antt =====
-- The turns of a followed file, one by one.
use rfguard.Common.Tests.{
  ℕ, ◌+◌, ◌≡◌, refl, ap, sym, ◌∙◌, Bool, true, false, List, [], ◌∷◌, ◌++◌, Option, none, some, eqb,
  ltb, if◌then◌else◌, arith,
}
use mathlib.Core.List.{append_assoc, append-nil}
use rfguard.Common.Lists.{length, drop, drop_all, All, length-append}
use rfguard.Common.Split.{Free}
use rfguard.Common.Text.{Text}
use rfguard.Normalize.{Times}
use rfguard.Ingest.Fields.{Json}
use rfguard.Ingest.Lines.{Reading, process_lines}
use rfguard.Ingest.Tail.{
  World, Tail, Turn, size, read_string, file_tail_source, at_eof, is_shorter, took_line, after_read,
  read_file, turn_with, tail_turn, tail_file, open_file, close,
}

abbrev pub newline : ℕ
newline = 0x0a

-- A line with its line feed, and a text of such lines.
abbrev pub full_line : Text → Text
full_line line = line ++ (newline ∷ [])

abbrev pub full_lines : List (Text × Reading) → List (Text × Reading)
full_lines [] = []
full_lines ((line, at) ∷ lines) = (full_line line, at) ∷ full_lines lines

abbrev pub text_of : List (Text × Reading) → Text
text_of [] = []
text_of ((line, at) ∷ lines) = full_line line ++ text_of lines

-- Turns that find the files as they are, and nothing that goes wrong.
abbrev pub calm : Reading → Turn
calm at = record { done = false; slept = true; read_fails = false; reading = at }

abbrev pub turns_of : World → List (Text × Reading) → List (World × Turn)
turns_of w [] = []
turns_of w ((line, at) ∷ lines) = (w, calm at) ∷ turns_of w lines

drop-length : (s t : Text) → drop (length s) (s ++ t) ≡ t
drop-length [] t = refl
drop-length (c ∷ s) t = drop-length s t

size-append : (s t : Text) → size (s ++ t) ≡ size s + size t
unfolding size
size-append [] t = omega arith
size-append (c ∷ s) t = omega (arith, size-append s t)

read_string_line :
    (line rest : Text)
    → Free newline line
    → read_string (full_line line ++ rest) ≡ some (full_line line)
unfolding read_string
read_string_line [] rest h = refl
read_string_line (c ∷ line) rest h =
    let later = read_string_line line rest h.1 in
    let other : eqb c newline ≡ false = ground (arith, h.0) in rw (other, later) refl

nothing_left : (s : Text) → drop (length s) s ≡ []
nothing_left s = drop_all (length s) s (omega arith)

read_string_nil : (s : Text) → read_string (drop (length s) s) ≡ none
unfolding read_string
read_string_nil s = ap read_string (nothing_left s)

pub ltb_add : (m k : ℕ) → ltb m (k + m) ≡ ltb 0 k
ltb_add m k = ground arith

held_or_closed :
    (b : Bool) (t : Tail) (file : Option (ℕ × ℕ))
    → (if b then close t else record t { file = file })
      ≡ record t { file = if b then none else file }
held_or_closed true t file = refl
held_or_closed false t file = refl

module _ {Value Location : Type 0} (json : Json Value) (times : Times Location) where
  -- The state behind a line, and behind some lines.
  abbrev pub behind_line : ℕ → ℕ → Text → Reading → Tail → Tail
  behind_line n read line at t = took_line json times (calm at) n read line t

  running :
      (start_at_end : Bool) (w : World) (turn : Turn) (t : Tail)
      → t.ended ≡ false
      → tail_turn json times start_at_end w turn t
        ≡ turn_with json times start_at_end w turn t.file t
  unfolding tail_turn
  running start_at_end w turn t e =
      ap (λ b. if b then t else turn_with json times start_at_end w turn t.file t) e

  tail_turn_line :
      (start_at_end : Bool) (w : World) (n : ℕ) (before line rest : Text) (at : Reading) (t : Tail)
      → Free newline line
      → t.ended ≡ false
      → t.file ≡ some (n, length before)
      → w.content n ≡ before ++ (full_line line ++ rest)
      → tail_turn json times start_at_end w (calm at) t
        ≡ behind_line n (length before) (full_line line) at t
  unfolding tail_turn read_file
  tail_turn_line start_at_end w n before line rest at t f e h c =
      let after : Option Text → Tail =
        λ r. after_read json times w (calm at) n (length before) r t in
      running start_at_end w (calm at) t e
      ∙ ap (λ f. turn_with json times start_at_end w (calm at) f t) h
      ∙ ap (λ s. after (read_string (drop (length before) s))) c
      ∙ ap (λ s. after (read_string s)) (drop-length before (full_line line ++ rest))
      ∙ ap after (read_string_line line rest f)

  -- A file is followed line by line: if the part of it that is not read yet consists of whole lines,
  -- then as many turns as there are lines read them to the end of the file, each once and in order,
  -- and move the offset by their size.
  pub tail_file_lines :
      (start_at_end : Bool) (w : World) (n : ℕ) (before : Text) (lines : List (Text × Reading))
      (t : Tail)
      → All (λ l. Free newline l.0) lines
      → t.ended ≡ false
      → t.file ≡ some (n, length before)
      → w.content n ≡ before ++ text_of lines
      → tail_file json times start_at_end (turns_of w lines) t ≡ record t {
        file = some (n, length (w.content n));
        offset = t.offset + size (text_of lines);
        input = process_lines json times file_tail_source t.input (full_lines lines);
      }
  unfolding tail_file process_lines size
  tail_file_lines start_at_end w n before [] t f e h c =
      ap (λ x. record t { file = x })
        (h ∙ ap (λ s. some (n, length s)) (sym (append-nil before) ∙ sym c))
      ∙ ap (λ o. record t { file = some (n, length (w.content n)); offset = o }) (omega arith)
  tail_file_lines start_at_end w n before ((line, at) ∷ lines) t f e h c =
      let next = behind_line n (length before) (full_line line) at t in
      let there : ◌≡◌ {A = Option (ℕ × ℕ)} (some (n, length before + length (full_line line)))
          (some (n, length (before ++ full_line line))) =
        ap (λ k. some (n, k)) (sym (length-append before (full_line line))) in
      let same = c ∙ sym (append_assoc before (full_line line) (text_of lines)) in
      ap (tail_file json times start_at_end (turns_of w lines))
        (tail_turn_line start_at_end w n before line (text_of lines) at t f.0 e h c)
      ∙ tail_file_lines start_at_end w n (before ++ full_line line) lines next f.1 e there same
      ∙ ap
          (λ o. record next {
            file = some (n, length (w.content n));
            offset = o;
            input = process_lines json times file_tail_source next.input (full_lines lines);
          })
          (omega (arith, size-append (full_line line) (text_of lines)))

  pub tail_file-append :
      (start_at_end : Bool) (turns more : List (World × Turn)) (t : Tail)
      → tail_file json times start_at_end (turns ++ more) t
        ≡ tail_file json times start_at_end more (tail_file json times start_at_end turns t)
  unfolding tail_file
  tail_file-append start_at_end [] more t = refl
  tail_file-append start_at_end ((w, turn) ∷ turns) more t =
      tail_file-append start_at_end turns more (tail_turn json times start_at_end w turn t)

  pub tail_turn_open :
      (w : World) (n : ℕ) (at : Reading) (t : Tail)
      → t.ended ≡ false
      → t.file ≡ none
      → w.at_path ≡ some n
      → tail_turn json times false w (calm at) t ≡ record t { file = some (n, 0) }
  unfolding open_file
  tail_turn_open w n at t e h p =
      running false w (calm at) t e
      ∙ ap (λ f. turn_with json times false w (calm at) f t) h
      ∙ rw (open_file, p) refl

  pub tail_turn_eof :
      (start_at_end : Bool) (w : World) (n : ℕ) (at : Reading) (t : Tail)
      → t.ended ≡ false
      → t.file ≡ some (n, length (w.content n))
      → w.at_path ≡ some n
      → tail_turn json times start_at_end w (calm at) t ≡ record t {
        file = if ltb (size (w.content n)) t.offset then none else some (n, length (w.content n));
      }
  unfolding read_file at_eof
  tail_turn_eof start_at_end w n at t e h p =
      let end' = length (w.content n) + length (drop (length (w.content n)) (w.content n)) in
      running start_at_end w (calm at) t e
      ∙ ap (λ f. turn_with json times start_at_end w (calm at) f t) h
      ∙ ap (λ r. after_read json times w (calm at) n (length (w.content n)) r t)
          (read_string_nil (w.content n))
      ∙ ap (λ q. if is_shorter w q t.offset then close t else record t { file = some (n, end') }) p
      ∙ ap
          (λ k.
            if ltb (size (w.content n)) t.offset then close t else record t { file = some (n, k) })
          (rw (nothing_left (w.content n)) (omega arith))
      ∙ held_or_closed (ltb (size (w.content n)) t.offset) t (some (n, length (w.content n)))

  pub tail_turn_open_end :
      (w : World) (n : ℕ) (at : Reading) (t : Tail)
      → t.ended ≡ false
      → t.file ≡ none
      → w.at_path ≡ some n
      → tail_turn json times true w (calm at) t
        ≡ record t { file = some (n, length (w.content n)); offset = size (w.content n) }
  unfolding open_file
  tail_turn_open_end w n at t e h p =
      running true w (calm at) t e
      ∙ ap (λ f. turn_with json times true w (calm at) f t) h
      ∙ rw (open_file, p) refl

  -- A turn at the end of a file whose size is the offset changes nothing.
  pub tail_turn_still :
      (w : World) (n : ℕ) (at : Reading) (t : Tail)
      → t.ended ≡ false
      → t.file ≡ some (n, length (w.content n))
      → t.offset ≡ size (w.content n)
      → w.at_path ≡ some n
      → tail_turn json times true w (calm at) t ≡ t
  tail_turn_still w n at t e h o p =
      let not_shorter : ltb (size (w.content n)) t.offset ≡ false = ground (arith, o) in
      tail_turn_eof true w n at t e h p
      ∙ ap (λ b. record t { file = if b then none else some (n, length (w.content n)) }) not_shorter
      ∙ ap (λ f. record t { file = f }) (sym h)
