-- ===== src/Input/Netstr/Tests.antt =====
-- Inputs of delimiter_netstrings_test.go, and the theorems at concrete inputs.
use ekanite.Prelude.{◌≡◌, refl, true, [], ◌∷◌, Bytes, codes, all_of, all_of-All, All}
use ekanite.Strings.{atoi, is_digit}
use ekanite.Input.Netstr.{
  NetstrDelimiter, NetstrError, new_netstr_delimiter, check_len_byte, push, reset, Output, push_all,
}
use ekanite.Input.Netstr.Frames.{Netstring, in_length, push_all-results}
use ekanite.Input.Netstr.Broken.{push_all-reset-broken}

program : Unit {0}
unfolding push_all push check_len_byte atoi reset is_digit
program = tt

missing_semicolon :
    (push_all new_netstr_delimiter (codes "19:I am a test string.30:A...")).1
    ≡ Output.result (codes "I am a test string.")
      ∷ Output.result []
      ∷ Output.failure NetstrError.len_inv
      ∷ Output.failure NetstrError.broken
      ∷ Output.failure NetstrError.broken
      ∷ []
unfolding program
missing_semicolon = refl

too_large :
    (push_all new_netstr_delimiter (codes "9223372036854775808:x")).1
    ≡ Output.failure NetstrError.len_conv ∷ Output.failure NetstrError.broken ∷ []
unfolding program
too_large = refl

abbrev four : Netstring
four = record { digits = codes "4"; payload = codes "a;b:"; terminator = b';' }

abbrev two : Netstring
two = record { digits = codes "02"; payload = codes "ok"; terminator = b'!' }

digits : (ds : Bytes) → all_of check_len_byte ds ≡ true → All (λ c. check_len_byte c ≡ true) ds
digits = all_of-All check_len_byte

push_all-results_example :
    push_all new_netstr_delimiter (codes "4:a;b:;02:ok!")
    ≡ (in_length (codes "ok") [] 0, Output.result (codes "a;b:") ∷ Output.result (codes "ok") ∷ [])
unfolding program
push_all-results_example =
    push_all-results (four ∷ two ∷ [])
      ((digits (codes "4") refl, refl), ((digits (codes "02") refl, refl), tt))

abbrev spoilt : NetstrDelimiter
unfolding program
spoilt = (push_all new_netstr_delimiter (codes "19a")).0

push_all-reset-broken_example :
    push_all (reset spoilt) (codes "1:")
    ≡ (reset spoilt, Output.failure NetstrError.broken ∷ Output.failure NetstrError.broken ∷ [])
unfolding program
push_all-reset-broken_example = push_all-reset-broken spoilt (codes "1:") refl
