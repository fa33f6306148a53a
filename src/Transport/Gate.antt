-- ===== src/Transport/Gate.antt =====
-- The counter of sockets without a session in src/server/transport/websocket-server.ts, with the
-- timer that each of them is given.
use sync_engine.Base.{
  ℕ, zero, suc, ◌+◌, ◌≤◌, ◌<◌, ◌≡◌, Bool, true, false, Option, none, some, arith, leb, min,
  if◌then◌else◌,
}
use sync_engine.Op.{ℤ, pos, negsuc}
use sync_engine.Rga.{increment, decrement}

-- A socket: whether its timer runs, whether it has a session, and the code it was closed with.
pub record Socket : Type 0 where
  pub timer : Bool
  pub has_session : Bool
  pub closed_with : Option ℕ

pub record Gate : Type 0 where
  pub pending_auth_count : ℤ
  pub socket : Socket

abbrev pub at_least : ℕ → ℤ → Bool
at_least n (pos m) = leb n m
at_least n (negsuc m) = false

abbrev turned_away : Socket
turned_away = record { timer = false; has_session = false; closed_with = some 4029 }

abbrev let_in : Socket
let_in = record { timer = true; has_session = false; closed_with = none }

-- `wss.on('connection')`, with the counter so far
unfoldable pub on_connection : ℤ → Gate
on_connection n =
    if at_least 100 n
    then record { pending_auth_count = n; socket = turned_away }
    else record { pending_auth_count = increment n; socket = let_in }

-- The timer fires after ten seconds, if it still runs.
unfoldable pub on_join_timeout : Gate → Gate
on_join_timeout g =
    if g.socket.timer
    then if g.socket.has_session
      then record g { socket = record (g.socket) { timer = false } }
      else record {
        pending_auth_count = decrement g.pending_auth_count;
        socket = record (g.socket) { timer = false; closed_with = some 4001 };
      }
    else g

-- A message, which is a JOIN to the server while there is no session; `joined` says whether
-- `handleJoin` makes one.
unfoldable pub on_message : Bool → Gate → Gate
on_message joined g = if g.socket.has_session then g else record {
  pending_auth_count = decrement g.pending_auth_count;
  socket = record (g.socket) { timer = false; has_session = joined };
}

unfoldable pub on_close : Gate → Gate
on_close g = record g { socket = record (g.socket) { timer = false } }

-- A socket that is let in, and joins or is timed out, gives its place back.
gives_back :
    (n : ℤ)
    → at_least 100 n ≡ false
    → ((on_close (on_message true (on_connection n))).pending_auth_count ≡ n)
      × ((on_close (on_join_timeout (on_connection n))).pending_auth_count ≡ n)
unfolding on_connection on_message on_join_timeout on_close
gives_back (pos m) h = ground (arith, h)
gives_back (negsuc zero) h = ground (arith, h)
gives_back (negsuc (suc m)) h = ground (arith, h)

-- Sockets that connect and close again without a message, one after the other.
pub silent_visits : ℕ → ℤ → ℤ
silent_visits zero n = n
silent_visits (suc k) n = silent_visits k (on_close (on_connection n)).pending_auth_count

silent_visits-count : (k m : ℕ) → m ≤ 100 → silent_visits k (pos m) ≡ pos (min (m + k) 100)
unfolding silent_visits on_connection on_close
silent_visits-count zero m h = ground (arith, h)
silent_visits-count (suc k) m h =
    ground (arith, h, silent_visits-count k m h, silent_visits-count k (suc m))

turned_away_at :
    (k m : ℕ) (n : ℤ)
    → n ≡ pos (min (m + k) 100)
    → (on_connection n).socket.closed_with ≡ (if leb 100 (m + k) then some 4029 else none)
unfolding on_connection
turned_away_at k m n e = ground (arith, e)

-- The places of the gate. A socket that is let in and then joins, or is timed out, gives its place
-- back when it has closed. A socket that closes without a message keeps it: after `k` such sockets
-- the counter is `k` higher, up to 100, and the next connection is closed with 4029 exactly if it
-- stands at 100.
pub places_lost :
    (k m : ℕ)
    → m < 100
    → ((on_close (on_message true (on_connection (pos m)))).pending_auth_count ≡ pos m)
      × ((on_close (on_join_timeout (on_connection (pos m)))).pending_auth_count ≡ pos m)
      × (silent_visits k (pos m) ≡ pos (min (m + k) 100))
      × ((on_connection (silent_visits k (pos m))).socket.closed_with
          ≡ (if leb 100 (m + k) then some 4029 else none))
places_lost k m h =
    let back = gives_back (pos m) (ground (arith, h)) in
    let count = silent_visits-count k m (omega (arith, h)) in
    (back.0, back.1, count, turned_away_at k m (silent_visits k (pos m)) count)
