-- ===== src/Input/Syslog/Tests.antt =====
-- Streams of delimiter_syslog_test.go.
use ekanite.Prelude.{◌≡◌, refl, [], ◌∷◌, codes}
use ekanite.Strings.{is_digit, trim_right}
use ekanite.Regexp.{find_index}
use ekanite.Input.Syslog.{new_syslog_delimiter, push_all, push, look, vestige}
use ekanite.Input.Syslog.Cuts.{running}
use ekanite.Input.Syslog.Reads.{Reads, push_all-Reads}

program : Unit {0}
unfolding push_all push look vestige find_index is_digit trim_right
program = tt

leading :
    (push_all new_syslog_delimiter
      (codes "for root<12>1 sshd is down\n<145>1 sshd is up\n<67>2 accepted")).1
    ≡ codes "<12>1 sshd is down" ∷ codes "<145>1 sshd is up" ∷ []
unfolding program
leading = refl

carriage_returns :
    (push_all new_syslog_delimiter (codes "<12>1 down\r\n<145>1 up<33>4\r\n<67>2 accepted")).1
    ≡ codes "<12>1 down" ∷ codes "<145>1 up<33>4" ∷ []
unfolding program
carriage_returns = refl

stack_trace :
    (push_all new_syslog_delimiter
      (codes "<12>1 down\n<145>1 line 42\n\tloader.jar\n<67>2 accepted")).1
    ≡ codes "<12>1 down" ∷ codes "<145>1 line 42\n\tloader.jar" ∷ []
unfolding program
stack_trace = refl

push_all-Reads_example : Reads (codes "x<1>a\n<2>b") (running (codes "<2>b"), codes "<1>a" ∷ [])
unfolding program
push_all-Reads_example = push_all-Reads (codes "x<1>a\n<2>b")
