-- ===== src/Console.antt =====
-- tftpos/console.py: the console of a host, and the proxies to it. What asyncio.open_connection gives,
-- and what reading from it gives, are arguments; a connection keeps what was written to it.
pub mod Endpoint
use tftp_os.Prelude.{
  ℕ, zero, suc, ◌*◌, ◌-◌, ◌+◌, Bool, true, false, not, ◌&&◌, ◌||◌, Option, none, some, List, [],
  ◌∷◌, ◌++◌, codes, text_eq, truthy, leb, nat_beq, lower, strip, ◌==◌, if◌then◌else◌,
}
use tftp_os.Prelude.Text.{Text}
use tftp_os.Result.{Error, Result, ok, raise, value_error, ◌>>=◌, ◌>>◌, guard}
use tftp_os.Names.{is_name_char}
use tftp_os.Validation.Mac.{dollar}

pub data ConsoleType : Type 0 where
  vnc spice serial : ConsoleType

pub record ConsoleConfig : Type 0 where
  pub console_type : ConsoleType
  pub host : Text
  pub port : ℕ

-- ConsoleType(ct), with the check of _VALID_CONSOLE_TYPES.
unfoldable pub console_type_of : Text → Result ConsoleType
console_type_of ct =
    if ct == codes "vnc"
    then ok vnc
    else if ct == codes "spice"
    then ok spice
    else if ct == codes "serial"
    then ok serial
    else raise value_error

unfoldable pub is_digit : ℕ → Bool
is_digit c = leb b'0' c && leb c b'9'

-- The value of [0-9]{1,n}$ behind the number that was read so far, or `none`.
unfoldable pub more_digits : ℕ → ℕ → Text → Option ℕ
unfolding is_digit
more_digits n value [] = some value
more_digits zero value (c ∷ s) = if dollar (c ∷ s) then some value else none
more_digits (suc n) value (c ∷ s) =
    let rest = more_digits n (value * 10 + (c - b'0')) s in
    if is_digit c then rest else if dollar (c ∷ s) then some value else none

-- int of [0-9]{1,5}$
unfoldable pub port_of : Text → Option ℕ
unfolding is_digit more_digits
port_of [] = none
port_of (c ∷ s) = if is_digit c then more_digits 4 (c - b'0') s else none

abbrev pub with_host : ℕ → Option (Text × ℕ) → Option (Text × ℕ)
with_host c none = none
with_host c (some (host, port)) = some (c ∷ host, port)

abbrev pub no_host : Option ℕ → Option (Text × ℕ)
no_host none = none
no_host (some port) = some ([], port)

-- [a-zA-Z0-9._-]*:[0-9]{1,5}$: no character of the host is a colon.
unfoldable pub host_port : Text → Option (Text × ℕ)
unfolding is_name_char port_of
host_port [] = none
host_port (c ∷ s) =
    let rest = host_port s in
    if nat_beq c b':'
    then no_host (port_of s)
    else if is_name_char c
    then with_host c rest
    else none

-- _ENDPOINT_RE
unfoldable pub endpoint_re : Text → Option (Text × ℕ)
unfolding host_port
endpoint_re [] = none
endpoint_re (c ∷ s) = if is_name_char c then with_host c (host_port s) else none

-- not s, for a text or None
abbrev pub or_empty : Option Text → Text
or_empty none = []
or_empty (some s) = s

abbrev pub checked : ConsoleType → Option (Text × ℕ) → Result (Option ConsoleConfig)
checked ct none = raise value_error
checked ct (some (host, port)) =
    if not (leb 1 port) || not (leb port 65535)
    then raise value_error
    else ok (some (record { console_type = ct; host = host; port = port }))

-- The endpoint and the type are both set.
unfoldable pub parse_set : Text → Text → Result (Option ConsoleConfig)
unfolding lower strip console_type_of endpoint_re
parse_set console_type console_endpoint = do
  ct ← console_type_of (strip (lower console_type))
  checked ct (endpoint_re (strip console_endpoint))

unfoldable pub from_host_rule : Option Text → Option Text → Result (Option ConsoleConfig)
unfolding parse_set
from_host_rule console_type console_endpoint =
    let t = or_empty console_type in
    let e = or_empty console_endpoint in
    if not (truthy t) && not (truthy e)
    then ok none
    else (guard (truthy t) value_error >> guard (truthy e) value_error) >> parse_set t e

-- A connection that is open, with what was written to it.
pub record Connection : Type 0 where
  pub host : Text
  pub port : ℕ
  pub written : Text

-- ConsoleProxy and SerialConsoleProxy: they differ in the types that they take.
pub record Proxy : Type 0 where
  pub config : ConsoleConfig
  pub connection : Option Connection

abbrev pub is_serial : ConsoleType → Bool
is_serial vnc = false
is_serial spice = false
is_serial serial = true

unfoldable pub console_proxy : ConsoleConfig → Result Proxy
console_proxy config =
    if is_serial config.console_type
    then raise value_error
    else ok (record { config = config; connection = none })

unfoldable pub serial_proxy : ConsoleConfig → Result Proxy
serial_proxy config =
    if is_serial config.console_type
    then ok (record { config = config; connection = none })
    else raise value_error

-- The first argument is what opening the connection raises, if it does.
unfoldable pub connect : Option Error → Proxy → Result Proxy
connect none p = ok (record p {
  connection = some (record { host = p.config.host; port = p.config.port; written = [] });
})
connect (some e) p = raise e

unfoldable pub close : Proxy → Proxy
close p = record p { connection = none }

abbrev written_to : Text → Option Connection → Option Connection
written_to bytes none = none
written_to bytes (some c) = some (record c { written = c.written ++ bytes })

unfoldable pub send_to_backend : Proxy → Text → Proxy
send_to_backend p bytes = record p { connection = written_to bytes p.connection }

-- The first argument is what reading from the connection gives.
unfoldable pub receive_from_backend : Text → Proxy → Text
receive_from_backend read p = elim p.connection [ none ↦ [] | some c ↦ read ]
