-- ===== src/NoisyChan/Sending.antt =====
-- The loop `send` of src/rtmfp/noisy_chan.go, cut at the places where the loop `recv` can run between, and the two
-- loops side by side.
use go_rtmfp.Prelude.{ℕ, ◌+◌, List, [], ◌∷◌, ◌++◌, ◌==◌, ltb, if◌then◌else◌}
use go_rtmfp.NoisyChan.{Item, NoisyChan, open_chan, drops, recv_packet, update_send_bucket}

-- Where the loop stands. `checking`: before the test `Len() == 0` of the outer loop; `parking`: the test held and
-- `Wait` is not yet entered; `parked`: in `Wait`; `picking`: before the test `Len() > 0` of the inner loop; `timing` and
-- `delaying`: before the test of the schedule of the front, and asleep until it; `metering`: before `update_send_bucket`;
-- `removing`: the packet has gone out, its element is still in the list; `resting`: asleep until the bucket has filled.
pub data Place : Type 0 where
  checking : Place
  parking : Place
  parked : Place
  picking : Place
  timing : Item → Place
  delaying : Item → Place
  metering : Item → Place
  removing : Item → Place
  resting : ℕ → Place

-- The channel, the place of its sending loop, and the clock.
pub record Loop : Type 0 where
  pub chan : NoisyChan
  pub place : Place
  pub now : ℕ

-- `send_packet`
unfoldable pub send_packet : ℕ → Item → NoisyChan → NoisyChan
send_packet now p s = record s { tx_count = s.tx_count + 1; out = s.out ++ (p, now) ∷ [] }

-- `packets.Remove(front)`
unfoldable pub remove : Item → List Item → List Item
remove front [] = []
remove front (p ∷ q) = if p.number == front.number then q else p ∷ remove front q

unfoldable pub schedule_time : Item → NoisyChan → ℕ
schedule_time front s = front.queued_time + s.delay

-- The test of the outer loop, and that of the inner one with the choice of the front.
unfoldable pub check_packets : List Item → Place
check_packets [] = parking
check_packets (p ∷ q) = picking

unfoldable pub pick_front : List Item → Place
pick_front [] = checking
pick_front (p ∷ q) = timing p

-- The packet to `out` where there is no time to wait.
unfoldable pub meter : ℕ → Item → NoisyChan × ℕ → NoisyChan × Place
unfolding send_packet
meter now front (s, wait_time) =
    if wait_time == 0
    then (send_packet now front s, removing front)
    else (s, resting (now + wait_time))

-- What the loop does next at a time. A sleep ends at its time or later; `Wait` ends with a signal.
unfoldable pub send_step : ℕ → Place → NoisyChan → NoisyChan × Place
unfolding remove schedule_time check_packets pick_front meter
send_step now checking s = (s, check_packets s.packets)
send_step now parking s = (s, parked)
send_step now parked s = (s, parked)
send_step now picking s = (s, pick_front s.packets)
send_step now (timing front) s =
    (s, (if ltb now (schedule_time front s) then delaying front else metering front))
send_step now (delaying front) s =
    (s, (if ltb now (schedule_time front s) then delaying front else metering front))
send_step now (metering front) s = meter now front (update_send_bucket now front.size s)
send_step now (removing front) s = (record s { packets = remove front s.packets }, picking)
send_step now (resting until) s = (s, (if ltb now until then resting until else picking))

-- `Signal` ends the wait of a loop that is in `Wait`, and is lost else.
unfoldable pub signal : Place → Place
signal parked = checking
signal p = p

-- A packet that comes in with its draws and its length, a step of the sending loop, the time that goes by.
pub data Event : Type 0 where
  arrives : (draw draw' size : ℕ) → Event
  sends : Event
  elapses : ℕ → Event

unfoldable pub happens : Event → Loop → Loop
unfolding signal send_step
happens (arrives draw draw' size) l = record l {
  chan = recv_packet draw draw' l.now size l.chan;
  place = if drops draw size l.chan then l.place else signal l.place;
}
happens sends l =
    let after = send_step l.now l.place l.chan in record l { chan = after.0; place = after.1 }
happens (elapses d) l = record l { now = l.now + d }

unfoldable pub run_chan : List Event → Loop → Loop
unfolding happens
run_chan [] l = l
run_chan (e ∷ es) l = run_chan es (happens e l)

-- The two loops as `open` starts them.
unfoldable pub start : ℕ → NoisyChan → Loop
start now s = record { chan = open_chan now s; place = checking; now = now }
