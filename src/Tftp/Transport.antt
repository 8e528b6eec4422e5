-- ===== src/Tftp/Transport.antt =====
-- src/tftp.rs: what one round of a transfer loop sees of the clock and of the UDP socket, and what
-- it does. The socket (src/net/udp.rs and the system) is not modelled: what it answers is an input.
use rsurl.Base.{
  ℕ, Bool, true, false, Option, none, some, List, [], ◌∷◌, ◌++◌, ◌&&◌, ◌==◌, ◌≡◌, arith, All,
  All-append, IoKind, would_block, timed_out, Error, io,
}
use rsurl.Base.Bytes.{Bytes}

-- `SocketAddr`: the address as a number, and the port.
pub record Addr : Type 0 where
  pub ip : ℕ
  pub port : ℕ

abbrev pub same_addr : Addr → Addr → Bool
same_addr a b = a.ip == b.ip && a.port == b.port

-- What a round meets: the deadline is past; the wait cannot start (`op_timeout`,
-- `set_read_timeout`); `recv_from` fails; or it returns `buf[..n]` and the sender.
pub data Arrival : Type 0 where
  deadline_passed : Arrival
  wait_refused : Error → Arrival
  no_datagram : IoKind → Arrival
  datagram : Bytes → Addr → Arrival

-- A round makes one `send_to` at most: `send_result` is the error it meets, if any.
pub record Input : Type 0 where
  pub arrival : Arrival
  pub send_result : Option IoKind

abbrev pub Datagram : Type 0
Datagram = Bytes × Addr

-- The end of a round: `continue` with a state, a return, or a panic of the code. The last
-- argument is what was sent on the way.
pub data Round (S R : Type 0) : Type 0 where
  continue_with : S → List Datagram → Round S R
  finished : R → List Datagram → Round S R
  failed : Error → List Datagram → Round S R
  panicked : Round S R

module _ {S R : Type 0} where
  -- `socket.send_to(packet, dest)?`, and then the rest of the round.
  abbrev pub send : Option IoKind → Bytes → Addr → (List Datagram → Round S R) → Round S R
  send none packet dest rest = rest ((packet, dest) ∷ [])
  send (some e) packet dest rest = failed (io e) []

  abbrev pub after : List Datagram → Round S R → Round S R
  after sent (continue_with s more) = continue_with s (sent ++ more)
  after sent (finished r more) = finished r (sent ++ more)
  after sent (failed e more) = failed e (sent ++ more)
  after sent panicked = panicked

  -- The loop over the inputs: it stops where a round returns.
  unfoldable pub run : (Input → S → Round S R) → List Input → S → Round S R
  run step [] s = continue_with s []
  run step (i ∷ is) s = elim (step i s) [
    | continue_with s' sent ↦ after sent (run step is s')
    | finished r sent ↦ finished r sent
    | failed e sent ↦ failed e sent
    | panicked ↦ panicked
  ]

module _ {S R : Type 0} (step : Input → S → Round S R) (i : Input) (is : List Input) (s : S) where
  -- One round that goes on, and one that returns.
  pub run_continue :
      {s' : S} {sent : List Datagram}
      → step i s ≡ continue_with s' sent
      → run step (i ∷ is) s ≡ after sent (run step is s')
  unfolding run
  run_continue h = rw (h, run)

  pub run_finished :
      {r : R} {sent : List Datagram}
      → step i s ≡ finished r sent
      → run step (i ∷ is) s ≡ finished r sent
  unfolding run
  run_finished h = rw (h, run)

-- Every end of a round, or of the whole loop, meets these: the state that it goes on with, the
-- result, and each datagram that was sent. It never panics.
module _ {S R : Type 0} (Inv : S → Type 0) (Out : R → Type 0) (Sends : Datagram → Type 0) where
  abbrev pub Holds : Round S R → Type 0
  Holds (continue_with s sent) = Inv s × All Sends sent
  Holds (finished r sent) = Out r × All Sends sent
  Holds (failed e sent) = All Sends sent
  Holds panicked = ⊥

  pub Holds-after :
      (sent : List Datagram) (r : Round S R) → All Sends sent → Holds r → Holds (after sent r)
  Holds-after sent (continue_with s more) t (v, u) = (v, All-append _ sent more t u)
  Holds-after sent (finished out more) t (v, u) = (v, All-append _ sent more t u)
  Holds-after sent (failed e more) t u = All-append _ sent more t u
  Holds-after sent panicked t u = u

  -- What every round keeps, the loop keeps.
  pub run-Holds :
      (step : Input → S → Round S R)
      → ((i : Input) (s : S) → Inv s → Holds (step i s))
      → (is : List Input) (s : S) → Inv s
      → Holds (run step is s)
  unfolding run
  run-Holds step keep [] s v = (v, tt)
  run-Holds step keep (i ∷ is) s v = rest (step i s) (keep i s v) (run-Holds step keep is)
    where
      rest :
          (r : Round S R)
          → Holds r
          → ((t : S) → Inv t → Holds (run step is t))
          → Holds (elim r [
            | continue_with s' sent ↦ after sent (run step is s')
            | finished out sent ↦ finished out sent
            | failed e sent ↦ failed e sent
            | panicked ↦ panicked
          ])
      rest (continue_with t sent) (w, u) ih = Holds-after sent (run step is t) u (ih t w)
      rest (finished out sent) w ih = w
      rest (failed e sent) w ih = w
      rest panicked w ih = w

abbrev pub PeerIs : Addr → Option Addr → Type 0
PeerIs server none = Unit
PeerIs server (some p) = p.ip ≡ server.ip

-- Every datagram goes to the server's address.
abbrev pub ToServer : Addr → Datagram → Type 0
ToServer server d = d.1.ip ≡ server.ip

abbrev pub is_timeout : IoKind → Bool
is_timeout would_block = true
is_timeout timed_out = true
is_timeout _ = false

-- The check of the sender against the latched peer, or by its address before there is one.
abbrev pub accepts : Option Addr → Addr → Addr → Bool
accepts (some p) server from = same_addr from p
accepts none server from = from.ip == server.ip

abbrev pub max_retries : ℕ
max_retries = 3

-- An accepted sender is at the address that the request went to.
pub accepts-ip :
    (latched : Option Addr) (server from : Addr)
    → PeerIs server latched
    → accepts latched server from ≡ true
    → from.ip ≡ server.ip
accepts-ip none server from h a = ground arith
accepts-ip (some p) server from h a = ground arith

-- `if peer.is_none() { peer = Some(from) }`.
abbrev pub latch : Option Addr → Addr → Option Addr
latch none from = some from
latch (some p) from = some p

pub latch-PeerIs :
    (server from : Addr) (latched : Option Addr)
    → PeerIs server latched
    → from.ip ≡ server.ip
    → PeerIs server (latch latched from)
latch-PeerIs server from none h at = at
latch-PeerIs server from (some p) h at = h

pub accepts-latch :
    (latched : Option Addr) (server peer : Addr)
    → accepts latched server peer ≡ true
    → accepts (latch latched peer) server peer ≡ true
accepts-latch none server peer a = ground arith
accepts-latch (some p) server peer a = a
