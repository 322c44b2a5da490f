-- ===== src/Input/Syslog/Cuts.antt =====
-- The messages of a stream that is pushed to the delimiter of input/delimiter_syslog.go.
use mathlib.Core.List.{tail}
use ekanite.Prelude.{
  ℕ, ◌≡◌, refl, sym, ap, ap₂, ◌∙◌, subst, true, false, List, [], ◌∷◌, ◌++◌, append_assoc,
  append-nil, Option, none, some, Bytes, ◌==◌,
}
use ekanite.Strings.{trim_right}
use ekanite.Regexp.{find_index}
use ekanite.Regexp.Completeness.{Nowhere, IsPlace, IsSearch, find_index-IsSearch}
use ekanite.Regexp.Growing.{snoc-injective, Nowhere-prefix, last-match}
use ekanite.Input.Syslog.{SyslogDelimiter, run_regex, push, push_all}
use ekanite.Input.Syslog.Places.{IsHeader, Matches-IsBreak, IsHeader-Nowhere}

-- A text that begins with a header, cut in front of every later line that begins with one: the
-- messages, and the text behind the last cut.
pub data Cuts : Bytes → List Bytes → Bytes → Type 0 where
  last : (text : Bytes) → Nowhere run_regex text → Cuts text [] text
  cut :
      (before header rest : Bytes) {messages : List Bytes} {left : Bytes} {text : Bytes}
      → text ≡ before ++ (b'\n' ∷ header ++ rest)
      → Nowhere run_regex before
      → IsHeader header
      → Cuts (header ++ rest) messages left
      → Cuts text (trim_right (λ x. x == b'\r') before ∷ messages) left

abbrev pub running : Bytes → SyslogDelimiter
running buffer = record { buffer = buffer; running = true }

abbrev pub starting : Bytes → SyslogDelimiter
starting buffer = record { buffer = buffer; running = false }

-- The first break in a message that goes on.
record Break (before from : Bytes) : Type 0 where
  header : Bytes
  is_header : IsHeader header
  is : from ≡ b'\n' ∷ header
  first : Nowhere run_regex before

IsPlace-Break :
    (buffer : Bytes) (b : ℕ) (before from : Bytes)
    → Nowhere run_regex buffer
    → IsPlace run_regex (buffer ++ b ∷ []) before from
    → Break before from
IsPlace-Break buffer b before from n i =
    let k = Matches-IsBreak i.text i.after i.submatches i.matched in
    let at_end : i.after ≡ [] =
      last-match run_regex (λ w t t' d m. m) buffer b before i.text i.after i.submatches n
        (i.split ∙ ap (λ l. before ++ l) i.here) i.matched in
    let is : from ≡ b'\n' ∷ k.header = i.here ∙ ap₂ (λ u v. u ++ v) k.is at_end ∙ append-nil _ in
    let digits = k.is_header.digits in
    let whole : buffer ++ b ∷ [] ≡ (before ++ b'\n' ∷ b'<' ∷ digits) ++ b'>' ∷ [] =
      i.split
      ∙ ap (λ l. before ++ l) (is ∙ ap (◌∷◌ b'\n') k.is_header.is)
      ∙ sym (append_assoc before (b'\n' ∷ b'<' ∷ digits) (b'>' ∷ [])) in
    record {
      header = k.header;
      is_header = k.is_header;
      is = is;
      first =
          Nowhere-prefix run_regex (λ w t t' d m. m) before (b'\n' ∷ b'<' ∷ digits)
            (subst (Nowhere run_regex)
              (snoc-injective buffer (before ++ b'\n' ∷ b'<' ∷ digits) b b'>' whole) n);
    }

-- One byte more, in a message: it goes on, or the next one has begun.
abbrev Ran : Bytes → SyslogDelimiter × Option Bytes → Type 0
Ran text (s, none) = (s ≡ running text) × Nowhere run_regex text
Ran text (s, some m) =
    (before header : Bytes) × (text ≡ before ++ b'\n' ∷ header)
    × Nowhere run_regex before
    × IsHeader header
    × (m ≡ trim_right (λ x. x == b'\r') before)
    × (s ≡ running header)

push-Ran :
    (buffer : Bytes) (b : ℕ)
    → Nowhere run_regex buffer
    → Ran (buffer ++ b ∷ []) (push (running buffer) b)
unfolding push
push-Ran buffer b n =
    go (find_index run_regex (buffer ++ b ∷ [])) (find_index-IsSearch run_regex (buffer ++ b ∷ []))
  where
    go :
        (o : Option (Bytes × Bytes))
        → IsSearch run_regex (buffer ++ b ∷ []) o
        → Ran (buffer ++ b ∷ []) (elim o [
          | none ↦ (running (buffer ++ b ∷ []), none)
          | some (before, from) ↦ (running (tail from), some (trim_right (λ x. x == b'\r') before))
        ])
    go none i = (refl, i)
    go (some (before, from)) i =
        let k = IsPlace-Break buffer b before from n i in
        (
          before,
          k.header,
          i.split ∙ ap (λ l. before ++ l) k.is,
          k.first,
          k.is_header,
          refl,
          ap (λ l. running (tail l)) k.is,
        )

-- What a stream becomes, with the text in the buffer in front of it.
abbrev pub IsCut : Bytes → SyslogDelimiter × List Bytes → Type 0
IsCut text (s, messages) = Cuts text messages s.buffer × (s.running ≡ true)

pub push_all-Cuts :
    (buffer bs : Bytes)
    → Nowhere run_regex buffer
    → IsCut (buffer ++ bs) (push_all (running buffer) bs)
unfolding push_all
push_all-Cuts buffer [] n =
    (subst (λ t. Cuts t [] buffer) (sym (append-nil buffer)) (last buffer n), refl)
push_all-Cuts buffer (b ∷ bs) n =
    go (push (running buffer) b) (push-Ran buffer b n) (λ t m. push_all-Cuts t bs m)
  where
    go :
        (p : SyslogDelimiter × Option Bytes)
        → Ran (buffer ++ b ∷ []) p
        → ((t : Bytes) → Nowhere run_regex t → IsCut (t ++ bs) (push_all (running t) bs))
        → let q = push_all p.0 bs in
          IsCut (buffer ++ b ∷ bs) (q.0, elim p.1 [ none ↦ q.1 | some m ↦ m ∷ q.1 ])
    go (s, none) (es, m) ih =
        subst (λ t. IsCut t (push_all s bs)) (append_assoc buffer (b ∷ []) bs)
          (subst (λ z. IsCut ((buffer ++ b ∷ []) ++ bs) (push_all z bs)) (sym es)
            (ih (buffer ++ b ∷ []) m))
    go (s, some m) (before, header, et, first, h, em, es) ih =
        let there = ih header (IsHeader-Nowhere header h) in
        let whole : buffer ++ b ∷ bs ≡ before ++ (b'\n' ∷ header ++ bs) =
          sym (append_assoc buffer (b ∷ []) bs)
          ∙ ap (λ l. l ++ bs) et
          ∙ append_assoc before (b'\n' ∷ header) bs in
        subst (λ z. IsCut (buffer ++ b ∷ bs) ((push_all z bs).0, m ∷ (push_all z bs).1)) (sym es)
          (
            subst
                (λ z.
                  Cuts (buffer ++ b ∷ bs) (z ∷ (push_all (running header) bs).1)
                    (push_all (running header) bs).0.buffer)
                (sym em) (cut before header bs whole first h there.0),
            there.1,
          )
