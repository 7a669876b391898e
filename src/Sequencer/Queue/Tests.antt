-- ===== src/Sequencer/Queue/Tests.antt =====
-- The batch queue at concrete inputs.
use chain_sdk.Base.{◌+◌, ◌-◌, ◌≡◌, refl, List, [], ◌∷◌, none, arith, Bytes}
use chain_sdk.Sequencer.Key.{seq_to_key}
use chain_sdk.Sequencer.Wal.{Batch, Entry}
use chain_sdk.Sequencer.TestData.{memory_wal}
use chain_sdk.Sequencer.Queue.{BatchQueue, initial_seq_num, new_batch_queue, add_batch, load}
use chain_sdk.Sequencer.Queue.Fifo.{items, contents}
use chain_sdk.Sequencer.Queue.Deque.{
  Op, adds, prepends, takes, DequeRun, outcomes, run, run-DequeRun,
}
use chain_sdk.Sequencer.Queue.Durable.{IsDurable, add_batch-IsDurable}
use chain_sdk.Sequencer.Queue.Recovery.{load-recovers}

abbrev first_key : Bytes
first_key = seq_to_key initial_seq_num

abbrev second_key : Bytes
second_key = seq_to_key (initial_seq_num + 1)

abbrev first_batch : Batch
first_batch = (1 ∷ 2 ∷ []) ∷ []

abbrev second_batch : Batch
second_batch = (3 ∷ []) ∷ []

abbrev two_items : BatchQueue (List Entry)
two_items = record {
  queue =
      record { batch = first_batch; key = first_key }
      ∷ record { batch = second_batch; key = second_key }
      ∷ [];
  head = 0;
  max_queue_size = 3;
  next_add_seq = initial_seq_num + 2;
  next_prepend_seq = initial_seq_num - 1;
  db = (first_key, 1 ∷ 2 ∷ []) ∷ (second_key, 3 ∷ []) ∷ [];
}

abbrev restarted : BatchQueue (List Entry)
restarted = new_batch_queue memory_wal two_items.db 3

two_items-IsDurable : IsDurable memory_wal two_items
two_items-IsDurable = record {
  well_formed = omega arith;
  keyed =
      (initial_seq_num, omega arith, refl, (initial_seq_num + 1, omega arith, refl, omega arith));
  stored = (refl, refl, (refl, refl, tt));
  low = omega arith;
  high = omega arith;
  top = omega arith;
}

load-recovers_example :
    ((load memory_wal restarted).1 ≡ none)
    × (items (load memory_wal restarted).0 ≡ items two_items)
    × IsDurable memory_wal (load memory_wal restarted).0
unfolding new_batch_queue
load-recovers_example = load-recovers memory_wal two_items restarted two_items-IsDurable refl refl

abbrev some_ops : List Op
some_ops = takes ∷ prepends first_batch ∷ adds second_batch ∷ []

run-DequeRun_example :
    DequeRun
      (contents two_items)
      some_ops
      (outcomes memory_wal two_items some_ops)
      (contents (run memory_wal two_items some_ops))
run-DequeRun_example = run-DequeRun memory_wal two_items some_ops (omega arith)

add_batch-IsDurable_example : IsDurable memory_wal (add_batch memory_wal two_items first_batch).0
add_batch-IsDurable_example =
    add_batch-IsDurable memory_wal two_items first_batch (omega arith) two_items-IsDurable
