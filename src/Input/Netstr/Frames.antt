-- ===== src/Input/Netstr/Frames.antt =====
-- input/delimiter_netstrings.go: netstrings pushed into a `NetstrDelimiter`.
use ekanite.Prelude.{
  ℕ, ◌≡◌, refl, ◌∙◌, true, false, List, [], ◌∷◌, ◌++◌, append-nil, append_assoc, Bytes, length, map,
  All, arith,
}
use ekanite.Strings.{atoi}
use ekanite.Input.Netstr.{
  NetstrDelimiter, new_netstr_delimiter, check_len_byte, push, Output, push_all,
}

-- In length mode with the digits `ds` read, and in value mode with `left` bytes to come.
abbrev pub in_length : Bytes → Bytes → ℕ → NetstrDelimiter
in_length result ds n = record {
  result = result;
  len_buff = ds;
  val_buff = [];
  val_buff_len = n;
  val_buff_mode = false;
  ignore_mode = false;
  broken_mode = false;
}

abbrev in_value : Bytes → Bytes → ℕ → NetstrDelimiter
in_value result vs left = record {
  result = result;
  len_buff = [];
  val_buff = vs;
  val_buff_len = left;
  val_buff_mode = true;
  ignore_mode = false;
  broken_mode = false;
}

push_all-append :
    (xs ys : Bytes) (d : NetstrDelimiter)
    → push_all d (xs ++ ys)
      ≡ ((push_all (push_all d xs).0 ys).0, (push_all d xs).1 ++ (push_all (push_all d xs).0 ys).1)
unfolding push_all
push_all-append [] ys d = refl
push_all-append (x ∷ xs) ys d = simp (push_all-append xs ys, append_assoc)

-- Two runs, one after the other.
push_all-then :
    (d : NetstrDelimiter) {d' d'' : NetstrDelimiter} {o o' : List Output} (xs ys : Bytes)
    → push_all d xs ≡ (d', o)
    → push_all d' ys ≡ (d'', o')
    → push_all d (xs ++ ys) ≡ (d'', o ++ o')
push_all-then d xs ys h k = push_all-append xs ys d ∙ cc

push_all-digits :
    (ds read result : Bytes) (n : ℕ)
    → All (λ c. check_len_byte c ≡ true) ds
    → push_all (in_length result read n) ds ≡ (in_length result (read ++ ds) n, [])
unfolding push_all push
push_all-digits [] read result n h = rw append-nil
push_all-digits (c ∷ ds) read result n h =
    ground (arith, push_all-digits ds (read ++ c ∷ []) result n, append_assoc read (c ∷ []) ds)

push_all-colon :
    (ds result : Bytes) (n k : ℕ)
    → atoi ds ≡ (k, false)
    → push_all (in_length result ds n) (b':' ∷ []) ≡ (in_value result [] k, [])
unfolding push_all push
push_all-colon ds result n k h = rw (h)

push_all-value :
    (vs read result : Bytes)
    → push_all (in_value result read (length vs)) vs ≡ (in_value result (read ++ vs) 0, [])
unfolding push_all push
push_all-value [] read result = rw append-nil
push_all-value (v ∷ vs) read result =
    ground (arith, push_all-value vs (read ++ v ∷ []) result, append_assoc read (v ∷ []) vs)

push_all-end :
    (vs result : Bytes) (b : ℕ)
    → push_all (in_value result vs 0) (b ∷ []) ≡ (in_length vs [] 0, Output.result vs ∷ [])
unfolding push_all push
push_all-end vs result b = refl

-- The digits of a length, the bytes, and the byte behind them.
pub record Netstring : Type 0 where
  pub digits : Bytes
  pub payload : Bytes
  pub terminator : ℕ

abbrev pub encode : Netstring → Bytes
encode s = s.digits ++ (b':' ∷ [] ++ (s.payload ++ s.terminator ∷ []))

abbrev pub encode_all : List Netstring → Bytes
encode_all [] = []
encode_all (s ∷ ss) = encode s ++ encode_all ss

-- The digits are those of the payload's length; the terminator may be any byte.
abbrev pub IsNetstring : Netstring → Type 0
IsNetstring s =
    All (λ c. check_len_byte c ≡ true) s.digits × (atoi s.digits ≡ (length s.payload, false))

push_all-encode :
    (s : Netstring) (result : Bytes) (n : ℕ)
    → IsNetstring s
    → push_all (in_length result [] n) (encode s)
      ≡ (in_length s.payload [] 0, Output.result s.payload ∷ [])
push_all-encode s result n h =
    push_all-then _ s.digits _ (push_all-digits s.digits [] result n h.0) (
      push_all-then _ (b':' ∷ []) _ (push_all-colon s.digits result n (length s.payload) h.1) (
        push_all-then _ s.payload _ (push_all-value s.payload [] result)
          (push_all-end s.payload result s.terminator)))

abbrev pub last_result : Bytes → List Netstring → Bytes
last_result result [] = result
last_result result (s ∷ ss) = last_result s.payload ss

push_all-encode_all :
    (ss : List Netstring) (result : Bytes)
    → All IsNetstring ss
    → push_all (in_length result [] 0) (encode_all ss)
      ≡ (in_length (last_result result ss) [] 0, map (λ s. Output.result s.payload) ss)
unfolding push_all
push_all-encode_all [] result h = refl
push_all-encode_all (s ∷ ss) result h =
    push_all-then _ (encode s) (encode_all ss) (push_all-encode s result 0 h.0)
      (push_all-encode_all ss s.payload h.1)

-- A new delimiter that is pushed netstrings one after the other, whatever their payloads and the
-- bytes behind these are, reports no error and gives each payload as a result, in order; then it
-- is ready for the next length.
pub push_all-results :
    (ss : List Netstring)
    → All IsNetstring ss
    → push_all new_netstr_delimiter (encode_all ss)
      ≡ (in_length (last_result [] ss) [] 0, map (λ s. Output.result s.payload) ss)
push_all-results ss h = push_all-encode_all ss [] h
