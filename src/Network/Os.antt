-- ===== src/Network/Os.antt =====
-- What the networking code calls of Python and the operating system: the selector, the sockets, the
-- clock, random numbers, and the texts of addresses. An answer that may differ from call to call
-- takes the number of calls that were made before.
use skepticoin.Prelude.{Bytes, List, Option, ℕ, Bool}
use skepticoin.Prelude.Result.{Result}

-- The characters of a host's address, such as "10.0.0.1".
abbrev pub Host : Type 0
Host = List ℕ

pub record Os : Type 1 where
  -- `selectors.DefaultSelector`: `register`, `unregister`, `modify` (true: for writing as well)
  pub Selector : Type 0
  pub register : ℕ → Selector → Result Selector
  pub unregister : ℕ → Selector → Result Selector
  pub modify : ℕ → Bool → Selector → Result Selector
  pub map_size : Selector → ℕ
  -- `sock.send(buffer)`: the number of bytes taken
  pub send : ℕ → ℕ → Bytes → Result ℕ
  -- `int(time())`, `random.randrange(1 << 64)`, the index that `random.choice` picks
  pub clock : ℕ → ℕ
  pub random_context : ℕ → ℕ
  pub choice : ℕ → ℕ → ℕ
  -- `IPv6Address("::FFFF:%s" % host)`, and `ipv4_mapped.exploded`
  pub ipv6_mapped : Host → Result Bytes
  pub ipv4_mapped : Bytes → Option Host
  -- `sys.platform`, and `__version__`
  pub platform : List ℕ
  pub version : Bytes
