-- ===== src/Input/Netstr.antt =====
-- input/delimiter_netstrings.go: `NetstrDelimiter`, which is pushed one byte at a time. The
-- package's mutex and its variable `err` are not modelled: the delimiter is used by one goroutine.
pub mod Frames
pub mod Broken
mod Tests
use ekanite.Prelude.{
  ℕ, ◌+◌, ◌-◌, ◌≡◌, Bool, true, false, List, [], ◌∷◌, ◌++◌, Option, none, some, Bytes, ◌==◌,
  if◌then◌else◌, leb, ◌||◌,
}
use ekanite.Strings.{atoi}

-- `nil` and the package's error values.
pub data NetstrError : Type 0 where
  nil broken len_inc len_inv len_conv val_inc : NetstrError

pub record NetstrDelimiter : Type 0 where
  pub result : Bytes
  pub len_buff : Bytes
  pub val_buff : Bytes
  pub val_buff_len : ℕ
  pub val_buff_mode : Bool
  pub ignore_mode : Bool
  pub broken_mode : Bool

abbrev pub new_netstr_delimiter : NetstrDelimiter
new_netstr_delimiter = record {
  result = [];
  len_buff = [];
  val_buff = [];
  val_buff_len = 0;
  val_buff_mode = false;
  ignore_mode = false;
  broken_mode = false;
}

-- `bytes.Buffer.WriteByte`, whose error is always nil: whether it failed, and the buffer.
abbrev write_byte : Bytes → ℕ → Bool × Bytes
write_byte buffer b = (false, buffer ++ b ∷ [])

abbrev pub Push : Type 0
Push = NetstrDelimiter × Bool × NetstrError

-- `checkLenByte`: the loop compares the byte with each of the ten digits.
unfoldable pub check_len_byte : ℕ → Bool
check_len_byte b =
    b == b'0'
    || b == b'1'
    || b == b'2'
    || b == b'3'
    || b == b'4'
    || b == b'5'
    || b == b'6'
    || b == b'7'
    || b == b'8'
    || b == b'9'

unfoldable pub use_len_buff : NetstrDelimiter → NetstrDelimiter
use_len_buff d =
    let d' =
      if d.ignore_mode
      then record d { result = []; ignore_mode = false }
      else record d { result = d.val_buff } in
    record d' { val_buff = []; val_buff_mode = false }

-- The length is assigned also where `strconv.Atoi` fails.
unfoldable pub use_val_buff : NetstrDelimiter → NetstrDelimiter × NetstrError
use_val_buff d =
    let (n, failed) = atoi d.len_buff in
    if failed
    then (record d { val_buff_len = n; broken_mode = true }, NetstrError.len_conv)
    else (record d { val_buff_len = n; len_buff = []; val_buff_mode = true }, NetstrError.nil)

unfoldable pub process_len_byte : NetstrDelimiter → ℕ → Push
process_len_byte d b =
    let (converted, e) = use_val_buff d in
    let (failed, buffer) = write_byte d.len_buff b in
    if b == b':'
    then (converted, false, e)
    else if check_len_byte b
    then if failed
      then (record d { broken_mode = true }, false, NetstrError.len_inc)
      else (record d { len_buff = buffer }, false, NetstrError.nil)
    else (record d { broken_mode = true }, false, NetstrError.len_inv)

unfoldable pub process_val_byte : NetstrDelimiter → ℕ → Push
unfolding use_len_buff
process_val_byte d b =
    let next = record d { val_buff_len = d.val_buff_len - 1 } in
    let (failed, buffer) = write_byte d.val_buff b in
    if d.val_buff_len == 0
    then (use_len_buff d, true, NetstrError.nil)
    else if d.ignore_mode
    then (next, false, NetstrError.nil)
    else if failed
    then (record next { ignore_mode = true }, false, NetstrError.val_inc)
    else (record next { val_buff = buffer }, false, NetstrError.nil)

abbrev pub process_byte : NetstrDelimiter → ℕ → Push
process_byte d b = if d.val_buff_mode then process_val_byte d b else process_len_byte d b

-- `Push`
unfoldable pub push : NetstrDelimiter → ℕ → Push
unfolding process_len_byte process_val_byte use_val_buff check_len_byte
push d b = if d.broken_mode then (d, false, NetstrError.broken) else process_byte d b

-- `Reset`
unfoldable pub reset : NetstrDelimiter → NetstrDelimiter
unfolding use_len_buff
reset d = use_len_buff d

-- What the caller of `Push` sees for each byte pushed in turn: the results, and the errors.
pub data Output : Type 0 where
  result : Bytes → Output
  failure : NetstrError → Output

abbrev outputs : Push → List Output
outputs (d, true, NetstrError.nil) = result d.result ∷ []
outputs (d, false, NetstrError.nil) = []
outputs (d, ok, e) = failure e ∷ []

unfoldable pub push_all : NetstrDelimiter → Bytes → NetstrDelimiter × List Output
push_all d [] = (d, [])
push_all d (b ∷ bs) =
    let pushed = push d b in
    let (last, rest) = push_all pushed.0 bs in (last, outputs pushed ++ rest)
