-- ===== src/BuildApi/Events.antt =====
-- How the event source of a browser (webui/src/hooks/useSSE.ts) reads the fields of an event that
-- `sendSSEEvent` of internal/buildapi/server.go writes.
use Prim.Native.Char.{code}
use text.Mathlib.TextLemmas.{append_assoc, nil-append, cons-append}
use mathlib.Core.List.{append-nil as list_append-nil}
use automotive_dev_operator.Base.{
  ℕ, String, ◌<>◌, Bool, false, ◌&&◌, none, some, List, [], ◌∷◌, ◌++◌, if◌then◌else◌, ◌≡◌, refl,
  inl, inr, Bool-cases, ◌==◌, ap,
}
use automotive_dev_operator.Text.Trim.{cut_prefix, trim_prefix}
use automotive_dev_operator.Text.Split.{split, split_once}
use automotive_dev_operator.Text.Splitting.{
  has_code, has_code-some, has_code-append, has_code-cons_false,
}
use automotive_dev_operator.BuildApi.Sse.{event_field}
use automotive_dev_operator.Text.Chars.{◌is◌}

abbrev pub Fields : Type 0
Fields = List (String × String)

-- A line `field: value`, less one space after the colon.
unfoldable pub read_field : String → String × String
unfolding split_once trim_prefix
read_field line = elim (split_once 58 line) [
  | none ↦ (line, "")
  | some p ↦ (p.0, trim_prefix p.1 " ")
]

-- The lines of an event stream, which end at a carriage return, a line feed, or both. The flag says
-- that the last character was a carriage return.
unfoldable pub unified : Bool → String → String
unified after_return String.[] = ""
unified after_return (String.◌∷◌ c s) =
    let rest = unified (code c is 13) s in
    if code c is 13
    then String.◌∷◌ "\n" rest
    else if after_return && (code c is 10)
    then rest
    else String.◌∷◌ c rest

unfoldable pub event_lines : String → List String
unfolding unified split
event_lines text = split 10 (unified false text)

-- The events of a stream by its lines, with the fields of the event that is being read. An empty
-- line ends an event; one without fields is none, and lines after the last event are dropped.
unfoldable pub read_events : Fields → List String → List Fields
unfolding read_field
read_events acc [] = []
read_events acc (line ∷ lines) =
    if line == ""
    then elim acc [ [] ↦ read_events [] lines | x ∷ xs ↦ (x ∷ xs) ∷ read_events [] lines ]
    else read_events (acc ++ (read_field line ∷ [])) lines

pub colon_space : (text : String) → (": " <> text) ≡ String.◌∷◌ ":" (" " <> text)
colon_space text = cons-append ":" " " text

pub after_space : (text : String) → trim_prefix (" " <> text) " " ≡ text
unfolding trim_prefix cut_prefix
after_space text = rw (cons-append " " "" text, nil-append text) refl

pub split_once-colon :
    (word text : String)
    → has_code 58 word ≡ false
    → split_once 58 (word <> (": " <> text)) ≡ some (word, " " <> text)
unfolding split_once has_code
split_once-colon String.[] text h = rw (nil-append (": " <> text), colon_space text) refl
split_once-colon (String.◌∷◌ c word) text h =
    let (other, clear) = has_code-cons_false 58 c word h in
    rw (cons-append c word (": " <> text), other, split_once-colon word text clear) refl

pub split-line :
    (line rest : String)
    → has_code 10 line ≡ false
    → split 10 (line <> ("\n" <> rest)) ≡ line ∷ split 10 rest
unfolding split has_code
split-line String.[] rest h =
    rw (nil-append ("\n" <> rest), cons-append "\n" "" rest, nil-append rest) refl
split-line (String.◌∷◌ c line) rest h =
    let (other, clear) = has_code-cons_false 10 c line h in
    rw (cons-append c line ("\n" <> rest), other, split-line line rest clear) refl

pub has_code-append_false :
    (k : ℕ) (s t : String)
    → has_code k s ≡ false
    → has_code k t ≡ false
    → has_code k (s <> t) ≡ false
unfolding has_code
has_code-append_false k String.[] t h g = rw (nil-append t) g
has_code-append_false k (String.◌∷◌ c s) t h g =
    let (other, clear) = has_code-cons_false k c s h in
    rw (cons-append c s t, other, has_code-append_false k s t clear g) refl

-- The word of a field has no line end and no colon.
abbrev pub IsWord : String → Type 0
IsWord word = (has_code 10 word ≡ false) × (has_code 58 word ≡ false)

pub field_line : (word text : String) → ((word <> (": " <> text)) == "") ≡ false
unfolding has_code
field_line word text =
    has_code-some 58 _ (has_code-append 58 word (": " <> text) (rw (colon_space text) refl))

-- What a reader has of a field.
abbrev pub field_of : String → String → Fields
field_of word text = if text == "" then [] else (word, text) ∷ []

pub read_field-line :
    (word text : String)
    → has_code 58 word ≡ false
    → read_field (word <> (": " <> text)) ≡ (word, text)
unfolding read_field
read_field-line word text h =
    rw (split_once-colon word text h, read_field) (ap (λ t. (word, t)) (after_space text))

pub has_code-field :
    (word text : String)
    → has_code 10 word ≡ false
    → has_code 10 text ≡ false
    → has_code 10 (word <> (": " <> text)) ≡ false
unfolding has_code
has_code-field word text h g =
    has_code-append_false 10 word (": " <> text) h (has_code-append_false 10 ": " text refl g)

pub read-event_field :
    (word text rest : String) (acc : Fields)
    → IsWord word
    → has_code 10 text ≡ false
    → read_events acc (split 10 (event_field word text <> rest))
      ≡ read_events (acc ++ field_of word text) (split 10 rest)
unfolding event_field read_events
read-event_field word text rest acc (clear, plain) h = elim (Bool-cases (text == "")) [
  | inl e ↦ rw (e, nil-append rest, list_append-nil acc) refl
  | inr e ↦
      rw
        (
          e,
          append_assoc word (": " <> (text <> "\n")) rest,
          append_assoc ": " (text <> "\n") rest,
          append_assoc text "\n" rest,
          ← append_assoc ": " text ("\n" <> rest),
          ← append_assoc word (": " <> text) ("\n" <> rest),
          split-line (word <> (": " <> text)) rest (has_code-field word text clear h),
          field_line word text,
          read_field-line word text plain,
        )
        refl
]
