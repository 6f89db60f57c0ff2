-- ===== src/BuildApi/Lines.antt =====
-- Which lines of a log the loop of `streamLogsSSE` sends, internal/buildapi/server.go.
use text.Mathlib.TextLemmas.{append_assoc, append-nil, nil-append}
use automotive_dev_operator.Base.{
  String, ◌<>◌, true, List, [], ◌∷◌, ◌++◌, ◌≡◌, refl, sym, inl, inr, Bool-cases, ◌==◌,
}
use automotive_dev_operator.Text.Trim.{trim_space}
use automotive_dev_operator.Text.Split.{split, all_but_last, last_piece}
use automotive_dev_operator.Text.Splitting.{
  has_code, HaveNone, split-HaveNone, has_code-some, has_code-append, split-two, split-last_piece,
  all_but_last-split,
}
use automotive_dev_operator.BuildApi.Sse.{finished_lines, kept_text, without_blank, sent_lines}

-- Every chunk has a line end in it.
abbrev pub HaveLineEnds : List String → Type 0
HaveLineEnds [] = Unit {0}
HaveLineEnds (chunk ∷ chunks) = (has_code 10 chunk ≡ true) × HaveLineEnds chunks

abbrev pub joined : List String → String
joined [] = ""
joined (x ∷ xs) = x <> joined xs

pub without_blank-append :
    (xs ys : List String) → without_blank (xs ++ ys) ≡ without_blank xs ++ without_blank ys
unfolding without_blank
without_blank-append [] ys = refl
without_blank-append (x ∷ xs) ys = elim (Bool-cases (trim_space x == "")) [
  | inl e ↦ rw e (without_blank-append xs ys)
  | inr e ↦ rw (e, without_blank-append xs ys) refl
]

-- A chunk with a line end leaves the text after the last one in the buffer.
chunk_step :
    (buffer chunk : String) (chunks : List String)
    → has_code 10 chunk ≡ true
    → sent_lines buffer (chunk ∷ chunks)
      ≡ without_blank (all_but_last (split 10 (buffer <> chunk)))
        ++ sent_lines (last_piece (split 10 (buffer <> chunk))) chunks
unfolding sent_lines finished_lines kept_text all_but_last last_piece
chunk_step buffer chunk chunks h =
    let (x, y, more, p) = split-two 10 (buffer <> chunk) (has_code-append 10 buffer chunk h) in
    rw (has_code-some 10 chunk h, p) refl

sent_lines-buffered :
    (buffer : String) (chunks : List String)
    → split 10 buffer ≡ buffer ∷ []
    → HaveLineEnds chunks
    → sent_lines buffer chunks ≡ without_blank (all_but_last (split 10 (buffer <> joined chunks)))
unfolding sent_lines without_blank all_but_last
sent_lines-buffered buffer [] piece h = rw (append-nil buffer, piece) refl
sent_lines-buffered buffer (chunk ∷ chunks) piece (ends, h) =
    let s = buffer <> chunk in
    rw
      (
        chunk_step buffer chunk chunks ends,
        sent_lines-buffered (last_piece (split 10 s)) chunks (split-last_piece 10 s) h,
        ← append_assoc buffer chunk (joined chunks),
        all_but_last-split 10 s (joined chunks),
      )
      (sym (without_blank-append (all_but_last (split 10 s)) _))

-- Where every chunk has a line end, the lines that are sent are the lines of the whole log that are
-- not blank, whatever the chunks are, less the text after the last line end.
pub sent_lines_whole :
    (chunks : List String)
    → HaveLineEnds chunks
    → sent_lines "" chunks ≡ without_blank (all_but_last (split 10 (joined chunks)))
unfolding split
sent_lines_whole chunks h =
    rw (sent_lines-buffered "" chunks refl h, nil-append (joined chunks)) refl

HaveNone-append : (xs ys : List String) → HaveNone 10 xs → HaveNone 10 ys → HaveNone 10 (xs ++ ys)
HaveNone-append [] ys h g = g
HaveNone-append (x ∷ xs) ys (clear, h) g = (clear, HaveNone-append xs ys h g)

HaveNone-without_blank : (xs : List String) → HaveNone 10 xs → HaveNone 10 (without_blank xs)
unfolding without_blank
HaveNone-without_blank [] h = tt
HaveNone-without_blank (x ∷ xs) (clear, h) = elim (Bool-cases (trim_space x == "")) [
  | inl e ↦ rw e (HaveNone-without_blank xs h)
  | inr e ↦ rw e (clear, HaveNone-without_blank xs h)
]

HaveNone-all_but_last :
    (x : String) (xs : List String) → HaveNone 10 (x ∷ xs) → HaveNone 10 (all_but_last (x ∷ xs))
unfolding all_but_last
HaveNone-all_but_last x [] h = tt
HaveNone-all_but_last x (y ∷ more) (clear, h) = (clear, HaveNone-all_but_last y more h)

HaveNone-finished_lines : (xs : List String) → HaveNone 10 xs → HaveNone 10 (finished_lines xs)
unfolding finished_lines
HaveNone-finished_lines [] h = tt
HaveNone-finished_lines (x ∷ []) h = h
HaveNone-finished_lines (x ∷ y ∷ more) h = HaveNone-all_but_last x (y ∷ more) h

-- No line that is sent has a line end in it.
pub sent_lines-HaveNone :
    (buffer : String) (chunks : List String) → HaveNone 10 (sent_lines buffer chunks)
unfolding sent_lines
sent_lines-HaveNone buffer [] = tt
sent_lines-HaveNone buffer (chunk ∷ chunks) = elim (Bool-cases (chunk == "")) [
  | inl e ↦ rw e (sent_lines-HaveNone buffer chunks)
  | inr e ↦
      let pieces = split 10 (buffer <> chunk) in
      rw e (
        HaveNone-append (without_blank (finished_lines pieces)) _
          (HaveNone-without_blank _
            (HaveNone-finished_lines pieces (split-HaveNone 10 (buffer <> chunk))))
          (sent_lines-HaveNone (kept_text pieces) chunks))
]
