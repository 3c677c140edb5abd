-- ===== src/Tcp/Proxy.antt =====
-- realm_core/src/tcp/proxy.rs. The headers of the crate proxy_protocol are the cases that the code
-- matches on and builds; how they are read and written is a parameter. A failed `unreachable!` is
-- `none`, or `panics`.
pub mod Header
pub mod Stream
pub mod Taken
pub mod Relay
pub mod Tests
use realm.Base.{
  ℕ, ◌-◌, nat_eq, if◌then◌else◌, List, ◌++◌, length, Option, none, some, Result, ok, err, take,
  drop, min, Bool, true, false, String,
}
use realm.Endpoint.{SocketAddr, v4, v6, ProxyOpts}

-- `SocketAddrV4` and `SocketAddrV6`.
abbrev pub SockV4 : Type 0
SockV4 = ℕ × ℕ

abbrev pub SockV6 : Type 0
SockV6 = ℕ × ℕ × ℕ × ℕ

pub data AddressesV1 : Type 0 where
  unknown : AddressesV1
  ipv4 : SockV4 → SockV4 → AddressesV1
  ipv6 : SockV6 → SockV6 → AddressesV1

pub data Command : Type 0 where
  local proxy : Command

pub data Transport : Type 0 where
  unspec stream datagram : Transport

pub data AddressesV2 : Type 0 where
  unspec unix : AddressesV2
  ipv4 : SockV4 → SockV4 → AddressesV2
  ipv6 : SockV6 → SockV6 → AddressesV2

pub data ProxyHeader : Type 0 where
  version1 : AddressesV1 → ProxyHeader
  version2 : Command → Transport → AddressesV2 → ProxyHeader
  other : ProxyHeader

-- `unpack!`
abbrev pub sin4 : SocketAddr → Option SockV4
sin4 (v4 a p) = some (a, p)
sin4 (v6 a p f s) = none

abbrev pub sin6 : SocketAddr → Option SockV6
sin6 (v4 a p) = none
sin6 (v6 a p f s) = some (a, p, f, s)

abbrev pub is_ipv4 : SocketAddr → Bool
is_ipv4 (v4 a p) = true
is_ipv4 (v6 a p f s) = false

abbrev pub both {ℓ κ} : {A : Type ℓ} {B : Type κ} → (A → A → B) → Option A → Option A → Option B
both f none y = none
both f (some a) none = none
both f (some a) (some b) = some (f a b)

unfoldable pub make_header_v1 : SocketAddr → SocketAddr → Option ProxyHeader
make_header_v1 client server =
    if is_ipv4 client
    then both (λ a b. version1 (AddressesV1.ipv4 a b)) (sin4 client) (sin4 server)
    else both (λ a b. version1 (AddressesV1.ipv6 a b)) (sin6 client) (sin6 server)

abbrev pub streamed : AddressesV2 → ProxyHeader
streamed a = version2 proxy Transport.stream a

unfoldable pub make_header_v2 : SocketAddr → SocketAddr → Option ProxyHeader
make_header_v2 client server =
    if is_ipv4 client
    then both (λ a b. streamed (AddressesV2.ipv4 a b)) (sin4 client) (sin4 server)
    else both (λ a b. streamed (AddressesV2.ipv6 a b)) (sin6 client) (sin6 server)

unfoldable pub make_header : SocketAddr → SocketAddr → ℕ → Option ProxyHeader
unfolding make_header_v1 make_header_v2
make_header client server version =
    if nat_eq version 2
    then make_header_v2 client server
    else if nat_eq version 1
    then make_header_v1 client server
    else none

abbrev pub from_v4 : SockV4 → SocketAddr
from_v4 (a, p) = v4 a p

abbrev pub from_v6 : SockV6 → SocketAddr
from_v6 (a, p, f, s) = v6 a p f s

unfoldable pub handle_header_v1 : AddressesV1 → Option (SocketAddr × SocketAddr)
handle_header_v1 unknown = none
handle_header_v1 (AddressesV1.ipv4 a b) = some (from_v4 a, from_v4 b)
handle_header_v1 (AddressesV1.ipv6 a b) = some (from_v6 a, from_v6 b)

abbrev pub handle_addresses : AddressesV2 → Option (SocketAddr × SocketAddr)
handle_addresses (AddressesV2.ipv4 a b) = some (from_v4 a, from_v4 b)
handle_addresses (AddressesV2.ipv6 a b) = some (from_v6 a, from_v6 b)
handle_addresses AddressesV2.unspec = none
handle_addresses AddressesV2.unix = none

unfoldable pub handle_header_v2 :
    Command → Transport → AddressesV2 → Option (SocketAddr × SocketAddr)
handle_header_v2 local t a = none
handle_header_v2 proxy Transport.stream a = handle_addresses a
handle_header_v2 proxy Transport.unspec a = none
handle_header_v2 proxy datagram a = none

unfoldable pub handle_header : ProxyHeader → Option (SocketAddr × SocketAddr)
unfolding handle_header_v1 handle_header_v2
handle_header (version1 a) = handle_header_v1 a
handle_header (version2 c t a) = handle_header_v2 c t a
handle_header other = none

-- What the crate reads a header from, and what it leaves of the bytes; and the bytes of a header.
pub record Codec : Type 0 where
  pub parse : List ℕ → Result (ProxyHeader × List ℕ) String
  pub encode : ProxyHeader → Result (List ℕ) String

-- What a peek under the timeout gives: at most so many of the bytes that wait.
pub data Peek : Type 0 where
  timed_out : Peek
  failed : String → Peek
  seen : ℕ → Peek

-- What the sockets answer: the peek, an error of the read after it took so many of the bytes, the
-- address of the peer, and an error of the write after so many bytes.
pub record Calls : Type 0 where
  pub peek : Peek
  pub read_error : Option (ℕ × String)
  pub peer_addr : Result SocketAddr String
  pub write_error : Option (ℕ × String)

-- The bytes from the client that are not read yet, and those written to the server.
pub record Streams : Type 0 where
  pub src : List ℕ
  pub dst : List ℕ

pub data Answer : Type 0 where
  done timed_out panics : Answer
  failed : String → Answer

abbrev pub capacity : ℕ
capacity = 256

abbrev pub unspecified_like : SocketAddr → SocketAddr
unspecified_like (v4 a p) = v4 0 0
unspecified_like (v6 a p f s) = v6 0 0 0 0

-- The addresses of the header, or else the real one.
abbrev pub addresses :
    Option (SocketAddr × SocketAddr)
    → Result SocketAddr String
    → Result (SocketAddr × SocketAddr) String
addresses (some p) peer = ok p
addresses none (ok a) = ok (a, unspecified_like a)
addresses none (err e) = err e

abbrev pub write_all : Option (ℕ × String) → List ℕ → Streams → Streams × Answer
write_all none bs s = (record s { dst = s.dst ++ bs }, done)
write_all (some (n, e)) bs s = (record s { dst = s.dst ++ take n bs }, Answer.failed e)

abbrev pub write_header : Calls → Result (List ℕ) String → Streams → Streams × Answer
write_header calls (err e) s = (s, Answer.failed e)
write_header calls (ok bs) s = write_all calls.write_error bs s

module _ (codec : Codec) (calls : Calls) (opts : ProxyOpts) where
  abbrev pub send_made : Option ProxyHeader → Streams → Streams × Answer
  send_made none s = (s, panics)
  send_made (some h) s = write_header calls (codec.encode h) s

  abbrev pub send_from : Result (SocketAddr × SocketAddr) String → Streams → Streams × Answer
  send_from (err e) s = (s, Answer.failed e)
  send_from (ok (c, d)) s = send_made (make_header c d opts.send_proxy_version) s

  unfoldable pub send : Option (SocketAddr × SocketAddr) → Streams → Streams × Answer
  unfolding make_header
  send fwd s = send_from (addresses fwd calls.peer_addr) s

  abbrev pub send_if : Bool → Option (SocketAddr × SocketAddr) → Streams → Streams × Answer
  send_if true fwd s = send fwd s
  send_if false fwd s = (s, done)

  abbrev pub remove_header :
      Option (ℕ × String) → ℕ → Option (SocketAddr × SocketAddr) → Streams → Streams × Answer
  remove_header (some (k, e)) n fwd s = (record s { src = drop (min k n) s.src }, Answer.failed e)
  remove_header none n fwd s = send_if opts.send_proxy fwd (record s { src = drop n s.src })

  -- The bytes that were seen, and what `parse` makes of them.
  abbrev pub accept_parsed :
      List ℕ → Result (ProxyHeader × List ℕ) String → Streams → Streams × Answer
  accept_parsed buf (err e) s = (s, Answer.failed e)
  accept_parsed buf (ok (h, rest)) s =
      remove_header calls.read_error (length buf - length rest) (handle_header h) s

  unfoldable pub accept : Peek → Streams → Streams × Answer
  unfolding handle_header send
  accept Peek.timed_out s = (s, Answer.timed_out)
  accept (Peek.failed e) s = (s, Answer.failed e)
  accept (seen n) s = let buf = take (min n capacity) s.src in accept_parsed buf (codec.parse buf) s

  unfoldable pub handle_proxy : Streams → Streams × Answer
  unfolding accept send
  handle_proxy s = if opts.accept_proxy then accept calls.peek s else send none s
