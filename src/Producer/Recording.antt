-- ===== src/Producer/Recording.antt =====
-- producer/recording.py: the fixture, one JSON document to a line; read and
-- written. The JSON coder (orjson, pydantic) is an argument.
use tickstream_streaming_lak.Prelude.{
  ℕ, suc, String, ◌≡◌, refl, ap, Bool, false, Option, List, [], ◌∷◌, ◌++◌, All, length,
  if◌then◌else◌, nat_beq, append_assoc, append-nil, map,
}
use tickstream_streaming_lak.Prelude.Eq.{string_eq}
use tickstream_streaming_lak.Errors.{Result, ok}
use tickstream_streaming_lak.Py.{Json}
use tickstream_streaming_lak.Time.{Datetime}
use tickstream_streaming_lak.Normalize.Timestamp.{strip, drop_while}

pub record RecordedMessage (F : Type 0) : Type 0 where
  pub seq : ℕ
  pub ts_recorded : Datetime
  pub exchange : String
  pub channel : Option String
  pub payload : Json F

abbrev pub newline : ℕ
newline = 10

-- `for line in f`: each line without its newline, which `strip` takes off
unfoldable pub lines_from : List ℕ → List ℕ → List (List ℕ)
lines_from cur [] = cur ∷ []
lines_from cur (b ∷ bs) =
    let ended = cur ∷ lines_from [] bs in
    let going = lines_from (cur ++ (b ∷ [])) bs in if nat_beq b newline then ended else going

module _ {F : Type 0} (is_space : ℕ → Bool) (dumps : RecordedMessage F → List ℕ)
    (loads : List ℕ → Result (RecordedMessage F)) where
  -- `write_fixture`: the bytes of the file, and the count
  unfoldable pub write_fixture : List (RecordedMessage F) → List ℕ × ℕ
  write_fixture [] = ([], 0)
  write_fixture (m ∷ ms) =
      let (bytes, n) = write_fixture ms in (dumps m ++ (newline ∷ bytes), suc n)

  -- `read_fixture`, a generator: each element is what reading one line gives, or raises; blank
  -- lines are skipped
  abbrev read_line : List ℕ → List (Result (RecordedMessage F)) → List (Result (RecordedMessage F))
  read_line [] rest = rest
  read_line (b ∷ bs) rest = loads (b ∷ bs) ∷ rest

  unfoldable pub read_lines : List (List ℕ) → List (Result (RecordedMessage F))
  read_lines [] = []
  read_lines (line ∷ lines) = read_line (strip is_space line) (read_lines lines)

  unfoldable pub read_fixture : List ℕ → List (Result (RecordedMessage F))
  read_fixture bytes = read_lines (lines_from [] bytes)

  abbrev count_line : List ℕ → ℕ → ℕ
  count_line [] n = n
  count_line (b ∷ bs) n = suc n

  unfoldable pub count_lines : List (List ℕ) → ℕ
  count_lines [] = 0
  count_lines (line ∷ lines) = count_line (strip is_space line) (count_lines lines)

  unfoldable pub count_fixture : List ℕ → ℕ
  count_fixture bytes = count_lines (lines_from [] bytes)

  -- What is needed of the coder at a message: a document without a newline and without blanks
  -- around it, which is read back.
  pub record IsCoded (m : RecordedMessage F) : Type 0 where
    pub first : ℕ
    pub rest : List ℕ
    pub stripped : strip is_space (dumps m) ≡ first ∷ rest
    pub read_back : loads (first ∷ rest) ≡ ok m
    pub one_line : All (λ b. nat_beq b newline ≡ false) (dumps m)

  lines_from-document :
      (cur doc bytes : List ℕ)
      → All (λ b. nat_beq b newline ≡ false) doc
      → lines_from cur (doc ++ (newline ∷ bytes)) ≡ (cur ++ doc) ∷ lines_from [] bytes
  unfolding lines_from
  lines_from-document cur [] bytes h = simp append-nil
  lines_from-document cur (b ∷ doc) bytes (h, hs) =
      rw (h, lines_from-document (cur ++ (b ∷ [])) doc bytes hs, append_assoc)

  strip-nil : strip is_space [] ≡ []
  unfolding strip drop_while
  strip-nil = refl

  read_write :
      (ms : List (RecordedMessage F))
      → All IsCoded ms
      → (read_lines (lines_from [] (write_fixture ms).0) ≡ map ok ms)
        × (count_lines (lines_from [] (write_fixture ms).0) ≡ length ms)
        × ((write_fixture ms).1 ≡ length ms)
  unfolding write_fixture read_lines count_lines lines_from
  read_write [] h = (rw strip-nil, rw strip-nil, refl)
  read_write (m ∷ ms) (c, cs) =
      let (reads, counts, written) = read_write ms cs in
      let split = lines_from-document [] (dumps m) (write_fixture ms).0 c.one_line in
      (rw (split, c.stripped, c.read_back, reads), rw (split, c.stripped, counts), ap suc written)

  -- A fixture that was written is read back as the messages that were written, in their order,
  -- and both counts are their number, if the coder meets its conditions at each of them.
  pub read_fixture-write_fixture :
      (ms : List (RecordedMessage F))
      → All IsCoded ms
      → (read_fixture (write_fixture ms).0 ≡ map ok ms)
        × (count_fixture (write_fixture ms).0 ≡ length ms)
        × ((write_fixture ms).1 ≡ length ms)
  unfolding read_fixture count_fixture
  read_fixture-write_fixture = read_write
