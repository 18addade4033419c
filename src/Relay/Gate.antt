-- ===== src/Relay/Gate.antt =====
-- The relay gate, which the claim of env/app/worker.py and the cutoff sweep of
-- env/app/deadlines.py write out alike.
use ccj.Prelude.{
  ℕ, ◌+◌, Bool, false, Option, none, some, List, ◌&&◌, ◌||◌, is_null, holds, ◌==◌, ltb,
}
use ccj.Models.{Delivery, is_acknowledged}
use ccj.Sql.{exists}

-- a = b, over two nullable columns
abbrev pub equal : Option ℕ → Option ℕ → Bool
equal none b = false
equal (some a) none = false
equal (some a) (some b) = a == b

-- a = b - 1, over two nullable columns
abbrev pub precedes : Option ℕ → Option ℕ → Bool
precedes none b = false
precedes (some a) none = false
precedes (some a) (some b) = a + 1 == b

-- a > b, over two nullable columns
abbrev pub exceeds : Option ℕ → Option ℕ → Bool
exceeds none b = false
exceeds (some a) none = false
exceeds (some a) (some b) = ltb b a

-- the station before `e`, of the same event and chain version, has its success receipt
unfoldable pub opens : Delivery → Delivery → Bool
opens e prev =
    prev.event_id == e.event_id
    && (equal prev.relay_chain_id e.relay_chain_id
        && (precedes prev.relay_station_no e.relay_station_no
            && is_acknowledged prev.reconcile_state))

unfoldable pub relay_open : List Delivery → Delivery → Bool
relay_open rows e =
    is_null e.relay_chain_id || (holds e.relay_station_no 1 || exists (opens e) rows)
