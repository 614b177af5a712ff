-- ===== src/Ingest/Tail.antt =====
-- internal/ingest/filetail.go: following a file, as a machine that takes one turn per call of
-- `os.Open` or `ReadString`. What the buffer of `bufio` holds is taken to be what the file holds.
pub mod Turns
pub mod Whole
use rfguard.Common.Tests.{
  ℕ, ◌+◌, Bool, true, false, not, ◌&&◌, List, [], ◌∷◌, ◌++◌, Option, none, some, map, eqb, ltb,
  if◌then◌else◌,
}
use rfguard.Common.Lists.{length, drop}
use rfguard.Common.Text.{Text, codes}
use rfguard.Config.{FileTailConfig}
use rfguard.Normalize.{Times}
use rfguard.Ingest.Fields.{Json}
use rfguard.Ingest.Lines.{Reading, Input, process_line}

-- The files, by number, and which of them the path names.
pub record World : Type 0 where
  pub at_path : Option ℕ
  pub content : ℕ → Text

-- The file that is held, how many of its characters are read, and the offset, in bytes.
pub record Tail : Type 0 where
  pub file : Option (ℕ × ℕ)
  pub offset : ℕ
  pub input : Input
  pub ended : Bool

-- What a turn finds: whether the context is done at the head of the outer loop, whether a sleep ends
-- with its timer, whether the read fails, and the readings for a line.
pub record Turn : Type 0 where
  pub done : Bool
  pub slept : Bool
  pub read_fails : Bool
  pub reading : Reading

-- The bytes of a text.
abbrev pub char_size : ℕ → ℕ
char_size c = if ltb c 0x80 then 1 else if ltb c 0x800 then 2 else if ltb c 0x10000 then 3 else 4

unfoldable pub size : Text → ℕ
size [] = 0
size (c ∷ s) = char_size c + size s

abbrev pub extend_line : ℕ → Option Text → Option Text
extend_line c none = none
extend_line c (some line) = some (c ∷ line)

-- `ReadString('\n')`: the line with its line feed, or the end of the file.
unfoldable pub read_string : Text → Option Text
read_string [] = none
read_string (c ∷ s) =
    let rest = read_string s in if eqb c 0x0a then some (c ∷ []) else extend_line c rest

abbrev pub file_tail_source : Text
file_tail_source = codes "file_tail"

abbrev pub stop : Tail → Tail
stop t = record t { ended = true }

abbrev pub close : Tail → Tail
close t = record t { file = none }

-- `os.Open`, and the seek to the end, which does not fail.
unfoldable pub open_file : Bool → World → Turn → Tail → Tail
unfolding size
open_file start_at_end w turn t = elim w.at_path [
  | none ↦ if turn.slept then t else stop t
  | some n ↦
      if start_at_end
      then record t { file = some (n, length (w.content n)); offset = size (w.content n) }
      else record t { file = some (n, 0) }
]

-- Whether `os.Stat` succeeds and finds a file that is shorter than what was read.
abbrev pub is_shorter : World → Option ℕ → ℕ → Bool
is_shorter w none offset = false
is_shorter w (some n) offset = ltb (size (w.content n)) offset

-- At the end of the file: what stands there without a line feed is read, and dropped.
unfoldable pub at_eof : World → Turn → ℕ → ℕ → Tail → Tail
unfolding size
at_eof w turn n read t =
    let next = record t { file = some (n, read + length (drop read (w.content n))) } in
    if not turn.slept
    then stop (close t)
    else if is_shorter w w.at_path t.offset
    then close t
    else next

module _ {Value Location : Type 0} (json : Json Value) (times : Times Location) where
  abbrev pub took_line : Turn → ℕ → ℕ → Text → Tail → Tail
  took_line turn n read line t = record t {
    file = some (n, read + length line);
    offset = t.offset + size line;
    input = process_line json times file_tail_source t.input line turn.reading;
  }

  abbrev pub after_read : World → Turn → ℕ → ℕ → Option Text → Tail → Tail
  after_read w turn n read none t = at_eof w turn n read t
  after_read w turn n read (some line) t = took_line turn n read line t

  -- A turn of the inner loop.
  unfoldable pub read_file : World → Turn → ℕ → ℕ → Tail → Tail
  unfolding at_eof read_string process_line size
  read_file w turn n read t =
      if turn.read_fails
      then close t
      else after_read w turn n read (read_string (drop read (w.content n))) t

  abbrev pub turn_with : Bool → World → Turn → Option (ℕ × ℕ) → Tail → Tail
  turn_with start_at_end w turn none t =
      if turn.done then stop t else open_file start_at_end w turn t
  turn_with start_at_end w turn (some (n, read)) t = read_file w turn n read t

  unfoldable pub tail_turn : Bool → World → Turn → Tail → Tail
  unfolding open_file read_file
  tail_turn start_at_end w turn t = if t.ended then t else turn_with start_at_end w turn t.file t

  -- `tailFile`, over what its turns find.
  unfoldable pub tail_file : Bool → List (World × Turn) → Tail → Tail
  unfolding tail_turn
  tail_file start_at_end [] t = t
  tail_file start_at_end ((w, turn) ∷ turns) t =
      tail_file start_at_end turns (tail_turn start_at_end w turn t)

-- The files that `StartFileTail` follows.
unfoldable pub start_file_tail : FileTailConfig → List (Text × Bool)
start_file_tail current =
    if current.enabled then map (λ path. (path, current.start_at_end)) current.files else []
