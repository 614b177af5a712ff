-- ===== src/Ingest/Tail/Whole.antt =====
-- A round over a whole file.
use rfguard.Common.Tests.{
  ℕ, ◌+◌, ◌≡◌, refl, ap, sym, ◌∙◌, true, false, List, [], ◌∷◌, ◌++◌, none, some, ltb, if◌then◌else◌,
}
use rfguard.Common.Lists.{length, All}
use rfguard.Common.Split.{Free}
use rfguard.Common.Text.{Text}
use rfguard.Normalize.{Times}
use rfguard.Ingest.Fields.{Json}
use rfguard.Ingest.Lines.{Reading, process_lines}
use rfguard.Ingest.Tail.{World, Tail, size, file_tail_source, tail_turn, tail_file}
use rfguard.Ingest.Tail.Turns.{
  newline, full_lines, text_of, calm, turns_of, ltb_add, tail_turn_open, tail_turn_open_end,
  tail_turn_still, tail_turn_eof, tail_file-append, tail_file_lines,
}

module _ {Value Location : Type 0} (json : Json Value) (times : Times Location) where
  tail_file_whole :
      (w : World) (n : ℕ) (lines : List (Text × Reading)) (first last : Reading) (t : Tail)
      → All (λ l. Free newline l.0) lines
      → t.ended ≡ false
      → t.file ≡ none
      → w.at_path ≡ some n
      → w.content n ≡ text_of lines
      → tail_file json times false (((w, calm first) ∷ turns_of w lines) ++ ((w, calm last) ∷ [])) t
        ≡ record t {
          file = if ltb 0 t.offset then none else some (n, length (w.content n));
          offset = t.offset + size (w.content n);
          input = process_lines json times file_tail_source t.input (full_lines lines);
        }
  unfolding tail_file
  tail_file_whole w n lines first last t f e h p c =
      let opened : Tail = record t { file = some (n, 0) } in
      let read : Tail = record t {
        file = some (n, length (w.content n));
        offset = t.offset + size (text_of lines);
        input = process_lines json times file_tail_source t.input (full_lines lines);
      } in
      tail_file-append json times false ((w, calm first) ∷ turns_of w lines) ((w, calm last) ∷ []) t
      ∙ ap
          (λ k.
            tail_turn json times false w (calm last)
              (tail_file json times false (turns_of w lines) k))
          (tail_turn_open json times w n first t e h p)
      ∙ ap (tail_turn json times false w (calm last))
          (tail_file_lines json times false w n [] lines opened f e refl c)
      ∙ tail_turn_eof json times false w n last read e refl p
      ∙ ap
          (λ s. record read {
            file = if ltb (size (w.content n)) (t.offset + size s) then none else read.file;
            offset = t.offset + size s;
          })
          (sym c)
      ∙ ap
          (λ b. record read {
            file = if b then none else read.file;
            offset = t.offset + size (w.content n);
          })
          (ltb_add (size (w.content n)) t.offset)

  tail_file_still :
      (w : World) (n : ℕ) (lines : List (Text × Reading)) (t : Tail)
      → t.ended ≡ false
      → t.file ≡ some (n, length (w.content n))
      → t.offset ≡ size (w.content n)
      → w.at_path ≡ some n
      → tail_file json times true (turns_of w lines) t ≡ t
  unfolding tail_file
  tail_file_still w n [] t e h o p = refl
  tail_file_still w n ((line, at) ∷ lines) t e h o p =
      ap (tail_file json times true (turns_of w lines))
        (tail_turn_still json times w n at t e h o p)
      ∙ tail_file_still w n lines t e h o p

  -- One round over a whole file that nobody writes. If the input does not start at the end, then the
  -- file is opened, its lines are read, each once and in order, and the end is found; if nothing was
  -- read before, then the file stays open at its end, but if the offset is not 0 when the file is
  -- opened, as after a truncation, then the file is closed again, with a larger offset still, so that
  -- the next round reads the same lines again. If the input starts at the end, then the file stays open
  -- there, the offset is its size, and none of its lines is read.
  pub tail_file_round :
      (w : World) (n : ℕ) (lines : List (Text × Reading)) (first last : Reading) (t : Tail)
      → All (λ l. Free newline l.0) lines
      → t.ended ≡ false
      → t.file ≡ none
      → w.at_path ≡ some n
      → w.content n ≡ text_of lines
      → let turns = ((w, calm first) ∷ turns_of w lines) ++ ((w, calm last) ∷ []) in
        (tail_file json times false turns t ≡ record t {
          file = if ltb 0 t.offset then none else some (n, length (w.content n));
          offset = t.offset + size (w.content n);
          input = process_lines json times file_tail_source t.input (full_lines lines);
        })
        × (tail_file json times true turns t
            ≡ record t { file = some (n, length (w.content n)); offset = size (w.content n) })
  unfolding tail_file
  tail_file_round w n lines first last t f e h p c =
      let opened : Tail = record t {
        file = some (n, length (w.content n));
        offset = size (w.content n);
      } in
      (
        tail_file_whole w n lines first last t f e h p c,
        tail_file-append json times true ((w, calm first) ∷ turns_of w lines) ((w, calm last) ∷ [])
              t
            ∙ ap
                (λ k.
                  tail_turn json times true w (calm last)
                    (tail_file json times true (turns_of w lines) k))
                (tail_turn_open_end json times w n first t e h p)
            ∙ ap (tail_turn json times true w (calm last))
                (tail_file_still w n lines opened e refl refl p)
            ∙ tail_turn_still json times w n last opened e refl refl p,
      )
