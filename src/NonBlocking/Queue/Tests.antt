-- ===== src/NonBlocking/Queue/Tests.antt =====
-- Two threads that send, and one that polls.
use gce.Prelude.{ℕ, ◌≡◌, List, [], ◌∷◌, some, arith, length, ◌<◌}
use gce.Message.{Pack, new_message}
use gce.BasicActor.{nil_pack}
use gce.NonBlocking.Queue.{new_queues, u64_nil}
use gce.NonBlocking.Queue.Fifo.{
  QueueCall, sends, polls, restarts, queue_run, fifo_run, SentIn, queue_run-fifo,
}

abbrev parcel : ℕ → ℕ → Pack
parcel thread type = record nil_pack { msg = new_message type; cache_queue_index = thread }

abbrev traffic : List QueueCall
traffic =
    sends (parcel 0 7)
    ∷ sends (parcel 1 8)
    ∷ polls
    ∷ restarts
    ∷ sends (parcel 0 9)
    ∷ polls
    ∷ polls
    ∷ restarts
    ∷ sends (parcel 0 10)
    ∷ polls
    ∷ polls
    ∷ []

traffic-SentIn : SentIn 2 traffic
traffic-SentIn = (omega arith, (omega arith, (omega arith, (omega arith, tt))))

short_traffic : length traffic < u64_nil
short_traffic = omega arith

queue_run-fifo_example : queue_run traffic (new_queues 2) ≡ some (fifo_run traffic [])
queue_run-fifo_example = queue_run-fifo 2 traffic traffic-SentIn short_traffic
