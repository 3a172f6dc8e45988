-- ===== src/CanSequence/Tests.antt =====
-- Runs of the sender and of the receiver.
use can_utils.Base.{
  ◌+◌, ◌%◌, ◌^◌, List, [], ◌∷◌, ◌++◌, map, true, false, ◌≡◌, ◌≢◌, refl, arith, length, some,
}
use can_utils.CanSequence.{
  Options, Sender, Write, written, eintr, enobufs, ready, write_error, again, next_frame, send_from,
  do_send, exited, Receiver, start_receiver, do_receive,
}
use can_utils.CanSequence.Send.{numbers, do_send-numbers}
use can_utils.CanSequence.Receive.{clean, IsListening, do_receive-do_send, do_receive-gap}

abbrev defaults : Options
defaults = record {
  infinite = true;
  canfd = false;
  canfd_strict = false;
  use_poll = true;
  drop_until_quit = 0;
}

abbrev last_byte : Sender
last_byte = record { first_byte = 255; sequence = 0 }

abbrev results : List Write
results = written ∷ eintr ∷ enobufs ready ∷ written ∷ write_error ∷ written ∷ []

retries : do_send defaults 1 last_byte results ≡ (255 ∷ 0 ∷ [], exited)
unfolding do_send send_from again next_frame
retries = refl

defaults-IsListening : IsListening defaults 2
defaults-IsListening = ground arith

do_send-numbers_example :
    (do_send defaults 1 last_byte results).0
    ≡ numbers 255 (length (do_send defaults 1 last_byte results).0)
do_send-numbers_example = do_send-numbers defaults 1 last_byte results (omega arith)

do_receive-do_send_example :
    (r : Receiver) × (do_receive defaults 1 start_receiver
        (map (clean defaults 2) (do_send defaults 1 last_byte results).0)
      ≡ some r)
    × (r.drop_count ≡ 0)
do_receive-do_send_example =
    do_receive-do_send defaults 2 defaults-IsListening defaults 1 1 last_byte results (omega arith)

quits_later : defaults.drop_until_quit ≢ 1
quits_later = ground arith

do_receive-gap_example :
    (r : Receiver) × (do_receive defaults 1 start_receiver
        (map (clean defaults 2) (numbers 250 3 ++ numbers (250 + 3 + 7) 2))
      ≡ some r)
    × (r.drop_count ≡ 1)
    × (r.sequence % 2 ^ 8 ≡ (250 + 3 + 7 + 2) % 2 ^ 8)
do_receive-gap_example =
    do_receive-gap defaults 2 defaults-IsListening 250 2 7 1 1 (omega arith) (omega arith)
      (omega arith) quits_later
