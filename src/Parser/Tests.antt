-- ===== src/Parser/Tests.antt =====
-- Messages of input/parser_test.go.
use ekanite.Prelude.{◌≡◌, refl, inr, [], ◌∷◌, codes, arith, all_of-All}
use ekanite.Strings.{is_digit, atoi}
use ekanite.Regexp.{find_string_submatch}
use ekanite.Parser.{Fields, int, string, not_space}
use ekanite.Parser.Rfc5424.{parse, is_id}
use ekanite.Parser.Rfc5424.Lines.{Line, IsPlain, parse-print}
use ekanite.Parser.Watchguard

program : Unit {0}
unfolding parse Watchguard.parse find_string_submatch is_digit atoi
program = tt

abbrev accepted : Fields
accepted =
    (codes "priority", int 134)
    ∷ (codes "version", int 1)
    ∷ (codes "timestamp", string (codes "2003-08-24T05:14:15Z"))
    ∷ (codes "host", string (codes "ubuntu"))
    ∷ (codes "app", string (codes "sshd"))
    ∷ (codes "pid", int 1999)
    ∷ (codes "message_id", string (codes "-"))
    ∷ (codes "message", string (codes "password accepted"))
    ∷ []

password :
    parse (codes "<134>1 2003-08-24T05:14:15Z ubuntu sshd 1999 - password accepted") [] ≡ accepted
unfolding program
password = refl

wide : parse (codes "<134> 2013-09-04T10:25:52.618085 ubuntu sshd 1999 - accepted") [] ≡ []
unfolding program
wide = refl

firebox :
    Watchguard.parse
      (codes
        "<88>Oct 5 22:19:16 M200 801003 (2016-08-08T22:19:16) admd: msg_id=\"1100-0004\" Deny in out x y")
      []
    ≡ (codes "priority", int 88)
      ∷ (codes "local_dtg", string (codes "Oct 5 22:19:16"))
      ∷ (codes "model_name", string (codes "M200"))
      ∷ (codes "serial_no", string (codes "801003"))
      ∷ (codes "timestamp", string (codes "2016-08-08T22:19:16"))
      ∷ (codes "component", string (codes "admd:"))
      ∷ (codes "msg_id", string (codes "1100-0004"))
      ∷ (codes "disposition", string (codes "Deny"))
      ∷ (codes "src_intf", string (codes "in"))
      ∷ (codes "dst_intf", string (codes "out"))
      ∷ (codes "message", string (codes "x y"))
      ∷ []
unfolding program
firebox = refl

abbrev line : Line
line = record {
  priority = codes "134";
  version = b'1';
  timestamp = codes "2003-08-24T05:14:15Z";
  host = codes "ubuntu";
  app = codes "sshd";
  pid = codes "1999";
  id = codes "-";
  text = codes "password accepted";
}

line-IsPlain : IsPlain line
unfolding program
line-IsPlain = record {
  priority = (all_of-All is_digit (codes "134") refl, omega arith);
  priority_size = omega arith;
  version = refl;
  timestamp = (all_of-All not_space (codes "2003-08-24T05:14:15Z") refl, omega arith);
  host = (all_of-All not_space (codes "ubuntu") refl, omega arith);
  app = (all_of-All not_space (codes "sshd") refl, omega arith);
  pid = inr ((all_of-All is_digit (codes "1999") refl, omega arith), omega arith);
  id = (all_of-All is_id (codes "-") refl, omega arith);
  text = omega arith;
}

parse-print_example :
    parse (codes "<134>1 2003-08-24T05:14:15Z ubuntu sshd 1999 - password accepted") [] ≡ accepted
unfolding program
parse-print_example = parse-print line [] line-IsPlain
