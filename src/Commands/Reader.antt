-- ===== src/Commands/Reader.antt =====
-- std::istringstream, which the text commands are read by. A reader is given the text that is left;
-- the library decides what a word and a number are. `malformed` sets the variable to 0 and fails the
-- stream, `out_of_range` sets it to the nearest number that there is and fails the stream, `ended` fails it
-- and leaves the variable; a failed stream (`none`) changes nothing.
use Prim.Native.String.{String}
use motor_control.Base.{ℤ, pos, Bool, true, false, Option, none, some}
use motor_control.Double.{Double, nought}

pub data Extract (A : Type 0) : Type 0 where
  value : A → String → Extract A
  malformed : Extract A
  out_of_range : A → Extract A
  ended : Extract A

pub record TextReader (F : Type 0) : Type 0 where
  pub word : String → Extract String
  pub number : String → Extract F
  pub integer : String → Extract ℤ
  -- std::getline(iss >> std::ws, s)
  pub line : String → String

abbrev pub Stream : Type 0
Stream = Option String

-- `iss >> x`: the variable after the extraction, and the stream.
unfoldable pub extract : {A : Type 0} → (String → Extract A) → A → Stream → A → A × Stream
extract read zero_value none old = (old, none)
extract read zero_value (some text) old = elim (read text) [
  | value x rest ↦ (x, some rest)
  | malformed ↦ (zero_value, none)
  | out_of_range x ↦ (x, none)
  | ended ↦ (old, none)
]

abbrev pub good : Stream → Bool
good none = false
good (some text) = true

module _ {F : Type 0} ⦃d : Double F⦄ (reader : TextReader F) where
  abbrev pub read_number : Stream → F → F × Stream
  read_number = extract reader.number nought

  abbrev pub read_integer : Stream → ℤ → ℤ × Stream
  read_integer = extract reader.integer (pos 0)

  abbrev pub read_word : Stream → String → String × Stream
  read_word = extract reader.word ""

  -- The rest of the line; a failed stream leaves the empty string.
  abbrev pub read_line : Stream → String
  read_line none = ""
  read_line (some text) = reader.line text
