-- ===== src/Uri.antt =====
-- uri/include/uri/uri.h and the constants of uri/include/uri/parser.h.
pub mod Chars
pub mod Grammar
pub mod Parts
pub mod Host
pub mod Parser
pub mod Path
pub mod Safety
pub mod Authority
pub mod RoundTrip
pub mod Wild
pub mod Faults
pub mod Origin
pub mod Ends
use Prim.Native.Nat.{bit_and}
use beemo.Common.{ℕ, Bool, not, [], ℤ, negsuc, ◌==◌}
use beemo.Text.{Bytes}

pub record Uri : Type 0 where
  pub has_err : Bool
  pub asterik : Bool
  pub scheme : Bytes
  pub userinfo : Bytes
  pub future_version : Bytes
  pub ipv4 : Bytes
  pub ipv6 : Bytes
  pub ipvfuture : Bytes
  pub reg_name : Bytes
  pub port : ℤ
  pub path : Bytes
  pub query : Bytes

abbrev pub no_port : ℤ
no_port = negsuc 0

abbrev pub no_scheme : Bytes
no_scheme = []

abbrev pub flag_scheme : ℕ
flag_scheme = 1

abbrev pub flag_authority : ℕ
flag_authority = 2

abbrev pub flag_path : ℕ
flag_path = 4

abbrev pub flag_query : ℕ
flag_query = 8

abbrev pub flag_all : ℕ
flag_all = 15

-- `flags & flag`, as a condition.
abbrev pub has_flag : ℕ → ℕ → Bool
has_flag flags flag = not (bit_and flags flag == 0)

-- The label `err`.
abbrev pub fail : Uri → Uri
fail u = record u { has_err = Bool.true }
