-- ===== src/NoisyChan.antt =====
-- `noisy_chan` of src/rtmfp/noisy_chan.go: the speed limit, the admission of packets, and (Sending) the loop that
-- sends them. Times are in nanoseconds; a packet is its length; the random draws are arguments.
pub mod Bucket
pub mod Counts
pub mod Sending
pub mod Removal
pub mod Ledger
pub mod Fifo
pub mod Signals
use go_rtmfp.Prelude.{
  ℕ, ◌+◌, ◌-◌, ◌*◌, ◌/◌, Bool, true, false, ◌&&◌, List, [], ◌∷◌, length, ltb, leb, ◌==◌,
  if◌then◌else◌,
}

-- `nosiy_chan_item` in its place in the list: `number` says which element it is, the count of packets that had come
-- in before; `size` is the length of the packet.
pub record Item : Type 0 where
  pub number : ℕ
  pub size : ℕ
  pub queued_time : ℕ

-- The fields but for the channels, with what went out at `out` and when, oldest first.
pub record NoisyChan : Type 0 where
  pub lose_rate : ℕ
  pub delay : ℕ
  pub capacity : ℕ
  pub disorder : Bool
  pub max_packet_size : ℕ
  pub speed : ℕ
  pub packets : List Item
  pub rx_count : ℕ
  pub tx_count : ℕ
  pub drop_count : ℕ
  pub bucket : ℕ
  pub bucket_inc_rate : ℕ
  pub bucket_update_ts : ℕ
  pub out : List (Item × ℕ)

-- The fields that `open` sets; both loops start after it.
unfoldable pub open_chan : ℕ → NoisyChan → NoisyChan
open_chan now s =
    let opened = record s { packets = []; out = [] } in
    if ltb 0 s.speed
    then record opened {
      bucket = s.speed;
      bucket_inc_rate = s.speed / 1000;
      bucket_update_ts = now;
    }
    else opened

-- The bucket after the time since its last update; `now` is not before it.
unfoldable pub filled : ℕ → NoisyChan → ℕ
filled now s =
    let bucket = s.bucket + s.bucket_inc_rate * ((now - s.bucket_update_ts) / 1000000) in
    if ltb s.speed bucket then s.speed else bucket

-- The time to wait in nanoseconds, 0 where the bytes are taken.
unfoldable pub update_send_bucket : ℕ → ℕ → NoisyChan → NoisyChan × ℕ
unfolding filled
update_send_bucket now data_len s =
    let bucket = filled now s in
    let wait = (data_len - bucket) / s.bucket_inc_rate in
    if s.bucket_inc_rate == 0
    then (s, 0)
    else if leb data_len bucket
    then (record s { bucket = bucket - data_len; bucket_update_ts = now }, 0)
    else (
      record s { bucket = bucket; bucket_update_ts = now },
      (if wait == 0 then 1 else wait) * 1000000,
    )

-- `InsertBefore(item, Back())` on a list that is not empty.
unfoldable pub insert_before_back : Item → List Item → List Item
insert_before_back item [] = item ∷ []
insert_before_back item (p ∷ []) = item ∷ p ∷ []
insert_before_back item (p ∷ q ∷ r) = p ∷ insert_before_back item (q ∷ r)

unfoldable pub push_back_packet : Item → List Item → List Item
push_back_packet item [] = item ∷ []
push_back_packet item (p ∷ r) = p ∷ push_back_packet item r

-- The three reasons to drop a packet; `draw` is `rand.Int31n(100)`.
unfoldable pub drops : ℕ → ℕ → NoisyChan → Bool
drops draw size s =
    if ltb draw s.lose_rate
    then true
    else if ltb 0 s.capacity && leb s.capacity (length s.packets)
    then true
    else ltb 0 s.max_packet_size && ltb s.max_packet_size size

-- The test whether the packet goes before the last one.
unfoldable pub disorders : ℕ → NoisyChan → Bool
disorders draw s = s.disorder && (ltb draw 50 && ltb 0 (length s.packets))

-- The item of a packet that comes in.
unfoldable pub new_item : ℕ → ℕ → NoisyChan → Item
new_item now size s = record { number = s.rx_count; size = size; queued_time = now }

-- `draw` and `draw'` are the two draws.
unfoldable pub recv_packet : ℕ → ℕ → ℕ → ℕ → NoisyChan → NoisyChan
unfolding drops disorders new_item insert_before_back push_back_packet
recv_packet draw draw' now size s =
    let item = new_item now size s in
    let counted = record s { rx_count = s.rx_count + 1; drop_count = s.drop_count + 1 } in
    let kept = record s {
      rx_count = s.rx_count + 1;
      packets =
          if disorders draw' s
          then insert_before_back item s.packets
          else push_back_packet item s.packets;
    } in
    if drops draw size s then counted else kept
