-- ===== src/Tests/Whole.antt =====
-- Whole numbers in the place of the floating point numbers, three addresses, and a kernel that takes
-- every request.
use yass_simulator.Base.{
  ℕ, String, true, false, Option, none, some, [], ◌==◌, string_eq, nat_eq, if◌then◌else◌,
}
use yass_simulator.Base.Int.{ℤ, pos, ◌+ℤ◌, ◌-ℤ◌, ◌*ℤ◌, quot, ltb_ℤ, leb_ℤ, int64, bits, abs}
use yass_simulator.Base.Float.{Floats}
use yass_simulator.WorldController.Networking.Minors.{Addresses}
use yass_simulator.WorldController.Networking.Netlink.{Kernel, done}

abbrev pub whole : Floats ℤ
whole = record {
  lt = ltb_ℤ;
  le = leb_ℤ;
  of_int = λ z. z;
  to_int64 = λ z. int64 z;
  to_uint32 = λ z. bits 4294967296 z;
  round32 = λ z. z;
  add = λ a b. a +ℤ b;
  sub = λ a b. a -ℤ b;
  mul = λ a b. a *ℤ b;
  div = λ a b. quot a (abs b);
  abs = λ a. pos (abs a);
  max = λ a b. if ltb_ℤ a b then b else a;
}

-- Addresses are numbers; 1 and 2 are IPv4 addresses, 3 is another.
abbrev number_of : String → Option ℕ
number_of text =
    if text == "10.0.0.1"
    then some 1
    else if text == "10.0.0.2"
    then some 2
    else if text == "::1"
    then some 3
    else none

abbrev text_of : ℕ → String
text_of n = if n == 1 then "10.0.0.1" else if n == 2 then "10.0.0.2" else "::1"

abbrev pub three : Addresses ℕ
three = record {
  parse_ip = λ text. number_of text;
  is_v4 = λ n. if n == 3 then false else true;
  ip_equal = λ a b. a == b;
  ip_string = λ n. text_of n;
}

abbrev pub willing : Kernel ℤ ℕ
willing = record {
  run = λ before r. done;
  filters = λ before r. some [];
  qdiscs = λ before. some [];
}
