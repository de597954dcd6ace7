-- ===== src/Can/RawNode/Tests.antt =====
-- A node with two receive slots and a periodic frame.
use emblib.Base.{ℕ, ◌+◌, ◌≡◌, refl, true, false, none, some, List, [], ◌∷◌, ◌++◌, get_elem?}
use mathlib.Core.Option
use emblib.Can.{bytes, standard, extended, Frame, Transport}
use emblib.Can.RawNode.{
  NodeOptions, RxSlot, TxSlot, Node, add_rx, dispatch_rx, empty_queue, expire_slots, send_slots,
  run,
}
use emblib.Can.RawNode.Slots.{is_served, settled, reports, run_settles}

abbrev recorder : Transport (List Frame)
recorder = record { send = λ f b. (true, b ++ f ∷ []); add_filter = λ _ _ _ b. b }

abbrev options : NodeOptions
options = record { rx_slots = 1; tx_slots = 1; rx_queue_capacity = 4 }

-- Its handler counts frames in ones, and its timeout in thousands.
abbrev slot : ℕ → RxSlot ℕ
slot id = record {
  format = standard;
  id = id;
  mask = 0x7F0;
  timeout = 100;
  last_rx = 0;
  timed_out = false;
  handler = some (λ f s. s + 1);
  on_timeout = some (λ s. s + 1000);
}

abbrev beacon : TxSlot ℕ
beacon = record {
  format = extended;
  id = 0x1234;
  len = 1;
  period = 50;
  last_tx = 0;
  provider = some (λ s. (bytes 1 0 0 0 0 0 0 0, s));
}

abbrev incoming : Frame
incoming = record { format = standard; id = 0x105; len = 0; payload = bytes 0 0 0 0 0 0 0 0 }

abbrev node : Node ℕ
node = record {
  now = 0;
  rx = slot 0x100 ∷ slot 0x200 ∷ [];
  tx = beacon ∷ [];
  rx_queue = incoming ∷ incoming ∷ [];
}

-- The second slot times out at 100; the first one took both frames.
node-run :
    let (node', s', sent) = run recorder 100 node 0 [] in
    (s' ≡ 1002)
    × (sent
        ≡ record { format = extended; id = 0x1234; len = 1; payload = bytes 1 0 0 0 0 0 0 0 } ∷ [])
unfolding run empty_queue dispatch_rx expire_slots send_slots
node-run = (refl, refl)

second_add_rx_refused : (b : List Frame) → add_rx recorder options (slot 0x300) node b ≡ none
unfolding add_rx
second_add_rx_refused b = refl

run_settles_example :
    let (node', s', b') = run recorder 100 node 0 [] in
    let (received, handled) = empty_queue node.rx_queue 100 node.rx 0 in
    (get_elem? node'.rx 1
      ≡ Option.map (settled (is_served node.rx_queue node.rx 1) 100) (get_elem? node.rx 1))
    × (node'.rx_queue ≡ [])
    × (send_slots recorder 100 node.tx (reports received node'.rx handled) [] ≡ (node'.tx, s', b'))
run_settles_example = run_settles recorder 100 1 node 0 []
