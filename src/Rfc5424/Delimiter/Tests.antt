-- ===== src/Rfc5424/Delimiter/Tests.antt =====
-- Streams of delimiter_test.go, and the theorems at concrete streams.
use ekanite.Prelude.{
  ◌≡◌, refl, [], ◌∷◌, some, Bytes, codes, none_of, none_of-All, ◌==◌, true, ℕ, arith,
}
use ekanite.Strings.{is_digit, trim_right}
use ekanite.Rfc5424.Delimiter.{FsmState, new_delimiter, read_line, got}
use ekanite.Rfc5424.Delimiter.Slices.{Splits, read_line-Splits}
use ekanite.Rfc5424.Delimiter.Headers.{at, Lacks}
use ekanite.Rfc5424.Delimiter.Streams.{read_all, Message, read_all-frames, read_line-junk}

program : Unit {0}
unfolding read_all read_line is_digit trim_right
program = tt

multi :
    read_all 5 new_delimiter
      (codes "<12>1 sshd is <down>\n<145>1 sshd is up<33>4\n<67>2 password accepted")
    ≡ some (
        codes "<12>1 sshd is <down>"
        ∷ codes "<145>1 sshd is up<33>4"
        ∷ codes "<67>2 password accepted"
        ∷ [])
unfolding program
multi = refl

lacks : (b : ℕ) (s : Bytes) → none_of (λ x. x == b) s ≡ true → Lacks b s
lacks b = none_of-All (λ x. x == b)

abbrev down : Message
down = record { pri = codes "12"; ver = b'1'; body = codes "sshd is down\r\n" }

abbrev up : Message
up = record { pri = codes "1457"; ver = b'2'; body = codes "sshd is up" }

read_all-frames_example :
    read_all 3 new_delimiter (codes "boot\n<12>1 sshd is down\r\n<1457>2 sshd is up")
    ≡ some (codes "boot" ∷ codes "<12>1 sshd is down" ∷ codes "<1457>2 sshd is up" ∷ [])
unfolding program
read_all-frames_example =
    read_all-frames (codes "boot") (down ∷ up ∷ []) (lacks b'\n' (codes "boot") refl) (
      (((refl, (refl, tt)), omega arith, omega arith), refl, lacks b'<' down.body refl),
      (
        (
          ((refl, (refl, (refl, (refl, tt)))), omega arith, omega arith),
          refl,
          lacks b'<' up.body refl,
        ),
        tt,
      ),
    )

read_line-junk_example :
    read_line (at FsmState.pri_start 0 (codes "up\n")) (codes "<1x>1 down")
    ≡ got (codes "up\n<") (at FsmState.pri_start 0 (codes "1x>1 ")) (codes "down")
unfolding program
read_line-junk_example =
    read_line-junk b'1' b'x' b'1' 0 (codes "up\n") (codes "down") refl refl refl refl

read_line-Splits_example : Splits (codes "a\n<1>1 b") (read_line new_delimiter (codes "a\n<1>1 b"))
read_line-Splits_example = read_line-Splits new_delimiter (codes "a\n<1>1 b") tt
