-- ===== src/Parser/Rfc5424/Lines.antt =====
-- Messages of RFC5424 as parser/rfc5424.go reads them.
use ekanite.Prelude.{
  ℕ, ◌≤◌, ◌≡◌, refl, sym, ap, subst, Bool, true, List, [], ◌∷◌, ◌++◌, Option, none, some, Bytes,
  codes, equal, All, length, if◌then◌else◌, arith, ◌⊎◌, inl, inr, ◌==◌,
}
use ekanite.Strings.{is_digit, atoi}
use ekanite.Regexp.{Regexp, chr, seq, alt, rep, group, is_space, match}
use ekanite.Regexp.Greedy.{
  Takes, Takes-find, All-Run, chr_then, group_then, rep_then, rest-Takes, rep-Takes, chr-Takes,
  alt_left-Takes, alt_right-Takes, seq-Takes, group-Takes,
}
use ekanite.Parser.{int, string, Fields, lit, space, word, pri, not_space}
use ekanite.Parser.Rfc5424.{is_id, matcher, fields_of, parse}

pub record Line : Type 0 where
  pub priority : Bytes
  pub version : ℕ
  pub timestamp : Bytes
  pub host : Bytes
  pub app : Bytes
  pub pid : Bytes
  pub id : Bytes
  pub text : Bytes

-- The line with one space between the fields.
abbrev pub behind_version : Line → Bytes
behind_version l =
    b' '
    ∷ (l.timestamp
        ++ (b' '
            ∷ (l.host
                ++ (b' ' ∷ (l.app ++ (b' ' ∷ (l.pid ++ (b' ' ∷ (l.id ++ (b' ' ∷ l.text))))))))))

abbrev pub print : Line → Bytes
print l = (b'<' ∷ l.priority ++ b'>' ∷ []) ++ l.version ∷ behind_version l

-- Bytes of the class, at least one.
abbrev pub IsSome : (ℕ → Bool) → Bytes → Type 0
IsSome p s = All (λ x. p x ≡ true) s × (1 ≤ length s)

pub record IsPlain (l : Line) : Type 0 where
  pub priority : IsSome is_digit l.priority
  pub priority_size : length l.priority ≤ 3
  pub version : is_digit l.version ≡ true
  pub timestamp : IsSome not_space l.timestamp
  pub host : IsSome not_space l.host
  pub app : IsSome not_space l.app
  pub pid : (l.pid ≡ b'-' ∷ []) ⊎ (IsSome is_digit l.pid × (length l.pid ≤ 5))
  pub id : IsSome is_id l.id
  pub text : 1 ≤ length l.text

not-dash :
    (x : ℕ) (s : Bytes) (c : List Bytes) (k : Bytes → List Bytes → Option (List Bytes))
    → is_digit x ≡ true
    → match (lit b'-') (x ∷ s) c k ≡ none
unfolding match is_digit
not-dash x s c k h = ground arith

pid-Takes :
    (u v : Bytes)
    → (u ≡ b'-' ∷ []) ⊎ (IsSome is_digit u × (length u ≤ 5))
    → Takes (alt (lit b'-') (rep is_digit 1 (some 5))) u (b' ' ∷ v) []
pid-Takes u v (inl dash) =
    subst (λ w. Takes (alt (lit b'-') (rep is_digit 1 (some 5))) w (b' ' ∷ v) []) (sym dash)
      (alt_left-Takes (lit b'-') (rep is_digit 1 (some 5)) (b'-' ∷ []) (b' ' ∷ v) []
        (chr-Takes (λ x. x == b'-') b'-' (b' ' ∷ v) refl))
pid-Takes [] v (inr ((a, l), few)) = absurd (omega (arith, l))
pid-Takes (x ∷ u) v (inr ((a, l), few)) =
    alt_right-Takes (lit b'-') (rep is_digit 1 (some 5)) (x ∷ u) (b' ' ∷ v) []
      (λ c k. not-dash x (u ++ b' ' ∷ v) c k a.0)
      (rep-Takes is_digit 1 (some 5) (x ∷ u) (b' ' ∷ v)
        (All-Run is_digit 1 (some 5) (x ∷ u) a l few) (unfold is_digit in refl))

abbrev pub submatches : Line → List Bytes
submatches l =
    l.priority ∷ (l.version ∷ []) ∷ l.timestamp ∷ l.host ∷ l.app ∷ l.pid ∷ l.id ∷ l.text ∷ []

word_then :
    (b : Regexp) (u v : Bytes) (d : List Bytes)
    → IsSome not_space u
    → Takes b (b' ' ∷ v) [] d
    → Takes (seq word b) (u ++ b' ' ∷ v) [] (u ∷ d)
word_then b u v d (a, l) h =
    rep_then not_space 1 none b u (b' ' ∷ v) d (All-Run not_space 1 none u a l tt) refl h

space_then :
    (b : Regexp) (v : Bytes) (d : List Bytes) → Takes b v [] d → Takes (seq space b) (b' ' ∷ v) [] d
space_then b v d h = chr_then is_space b' ' b v d refl h

version_then :
    (b : Regexp) (x : ℕ) (v : Bytes) (d : List Bytes)
    → is_digit x ≡ true
    → Takes b v [] d
    → Takes (seq (group (chr is_digit)) b) (x ∷ v) [] ((x ∷ []) ∷ d)
version_then b x v d h = group_then (chr is_digit) b (x ∷ []) v d (chr-Takes is_digit x v h)

id_then :
    (b : Regexp) (u v : Bytes) (d : List Bytes)
    → IsSome is_id u
    → Takes b (b' ' ∷ v) [] d
    → Takes (seq (group (rep is_id 1 none)) b) (u ++ b' ' ∷ v) [] (u ∷ d)
id_then b u v d (a, l) h =
    rep_then is_id 1 none b u (b' ' ∷ v) d (All-Run is_id 1 none u a l tt) refl h

All-true : (w : Bytes) → All (λ x. true ≡ true) w
All-true [] = tt
All-true (x ∷ w) = (refl, All-true w)

pri_then :
    (b : Regexp) (u v : Bytes) (d : List Bytes)
    → IsSome is_digit u
    → length u ≤ 3
    → Takes b v [] d
    → Takes (seq pri b) ((b'<' ∷ u ++ b'>' ∷ []) ++ v) [] (u ∷ d)
pri_then b u v d (a, l) few h =
    seq-Takes pri b (b'<' ∷ u ++ b'>' ∷ []) v [] (u ∷ []) d
      (seq-Takes (lit b'<') _ (b'<' ∷ []) (u ++ b'>' ∷ []) (v ++ []) [] (u ∷ [])
        (chr-Takes (λ x. x == b'<') b'<' ((u ++ b'>' ∷ []) ++ (v ++ [])) refl)
        (seq-Takes (group (rep is_digit 1 (some 3))) (lit b'>') u (b'>' ∷ []) (v ++ []) (u ∷ []) []
          (group-Takes (rep is_digit 1 (some 3)) u (b'>' ∷ (v ++ [])) [] (
            rep-Takes is_digit 1 (some 3) u (b'>' ∷ (v ++ []))
              (All-Run is_digit 1 (some 3) u a l few) (unfold is_digit in refl)))
          (chr-Takes (λ x. x == b'>') b'>' (v ++ []) refl)))
      h

matcher-Takes : (l : Line) → IsPlain l → Takes matcher (print l) [] (submatches l)
unfolding matcher
matcher-Takes l h =
    pri_then _ l.priority (l.version ∷ behind_version l) _ h.priority h.priority_size (
      version_then _ l.version (behind_version l) _ h.version (
        space_then _ _ _ (
          word_then _ l.timestamp _ _ h.timestamp (
            space_then _ _ _ (
              word_then _ l.host _ _ h.host (
                space_then _ _ _ (
                  word_then _ l.app _ _ h.app (
                    space_then _ _ _ (
                      group_then (alt (lit b'-') (rep is_digit 1 (some 5))) _ l.pid _ _
                        (pid-Takes l.pid _ h.pid)
                        (space_then _ _ _ (
                          id_then _ l.id _ _ h.id (
                            space_then _ _ _ (
                              rest-Takes (λ _. true) 1 none l.text
                                (All-Run (λ _. true) 1 none l.text (All-true l.text) h.text
                                  tt))))))))))))))

-- A message with one space between its fields is read as these fields: the priority has one to three
-- digits, the version one, the process id is `-` or has one to five digits, the time, host and
-- application hold no space, the message id holds letters, digits, `_` and `-`, and no field is
-- empty. Whatever the map held before is dropped.
pub parse-print :
    (l : Line) (result : Fields)
    → IsPlain l
    → parse (print l) result
      ≡ (codes "priority", int (atoi l.priority).0)
        ∷ (codes "version", int (atoi (l.version ∷ [])).0)
        ∷ (codes "timestamp", string l.timestamp)
        ∷ (codes "host", string l.host)
        ∷ (codes "app", string l.app)
        ∷ (codes "pid", int (if equal l.pid (codes "-") then 0 else (atoi l.pid).0))
        ∷ (codes "message_id", string l.id)
        ∷ (codes "message", string l.text)
        ∷ []
unfolding parse fields_of
parse-print l result h =
    ap (λ m. fields_of m result) (Takes-find matcher (print l) (submatches l) (matcher-Takes l h))
