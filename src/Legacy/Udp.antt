-- ===== src/Legacy/Udp.antt =====
-- archive/legacy-dirtynet/core/udp.hh and udp.cc. The callback is never called, and Send has no body.
pub mod Laws
mod Tests
use dirty_net.Prelude.{ℕ, zero, suc, Bool, true, false, List, [], ◌∷◌, if◌then◌else◌}
use dirty_net.Prelude.Int.{ℤ, pos, negsuc}
use dirty_net.ByteOrder.{ByteOrder, htons, htonl}
use dirty_net.Sandbox.{Address, Call, opens, binds}
use dirty_net.Legacy.Ip.{Ip, ipv4, ipv6, valid_ip}

-- The members, where `thread` is whether _thread has been started, and the calls made.
pub record Udp : Type 0 where
  pub thread : Bool
  pub alive : Bool
  pub socket : Address
  pub calls : List Call

-- A default-constructed thread, and a socket of zeros
abbrev pub idle : Udp
idle = record {
  thread = false;
  alive = false;
  socket = record { sin_port = 0; sin_addr = 0 };
  calls = [];
}

-- bind(...) == -1
abbrev pub is_minus_one : ℤ → Bool
is_minus_one (negsuc zero) = true
is_minus_one _ = false

-- The case of an IPv4 address, where socket() returns `sock` and bind() `bound`. htonl takes an address that is in
-- network order already.
abbrev pub address_of : ByteOrder → ℕ → ℕ → Address
address_of o addr port = record { sin_port = htons o port; sin_addr = htonl o addr }

abbrev bind_ip : ByteOrder → Ip → ℕ → ℤ → ℤ → Udp
bind_ip o (ipv4 h) port sock bound = record {
  thread = if is_minus_one bound then false else true;
  alive = false;
  socket = address_of o h.addr port;
  calls = opens ∷ binds sock (address_of o h.addr port) ∷ [];
}
bind_ip o (ipv6 h) port sock bound = idle

-- udp(ip, port, callback)
unfoldable pub construct : ByteOrder → Ip → ℕ → ℤ → ℤ → Udp
construct o i port sock bound = if valid_ip i then bind_ip o i port sock bound else idle

-- Alive() and Kill()
abbrev pub is_alive : Udp → Bool
is_alive u = u.alive

abbrev pub kill : Udp → Udp
kill u = record { thread = u.thread; alive = false; socket = u.socket; calls = u.calls }

-- run(), the thread's body, an empty loop while _alive: whether it ends.
abbrev pub run_ends : Udp → Bool
run_ends u = if u.alive then false else true

-- ~udp() joins the thread, and makes no call. To join one that was not started throws, and a destructor that throws ends the program; to
-- join one whose body does not end waits for ever.
pub data Destroyed : Type 0 where
  joined program_terminated waits_for_ever : Destroyed

-- How it ends, and the calls made by then
unfoldable pub destroy : Udp → Destroyed × List Call
destroy u =
    if u.thread
    then (if run_ends u then (joined, u.calls) else (waits_for_ever, u.calls))
    else (program_terminated, u.calls)
