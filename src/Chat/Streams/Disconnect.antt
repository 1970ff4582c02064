-- ===== src/Chat/Streams/Disconnect.antt =====
-- A client that goes while the queue is full.
use vector_doc_qa.Prelude.{ℕ, ◌≡◌, refl, length, arith}
use vector_doc_qa.Models.{User}
use vector_doc_qa.Database.{Db}
use vector_doc_qa.Chat.Streams.{Events}
use vector_doc_qa.Chat.Streams.Queue.{
  maxsize, producing, ending, closed, State, Move, act, put, return, put_end, get, get_end, Step,
  move, keep_alive, disconnect, disconnected, Reach, here, next,
}

module _ (others : Db → Db) (document_id : ℕ) (current_user : User) where
  -- The producer waits to put the end mark, and nobody takes from the queue.
  record IsStuck (s : State) : Type 0 where
    producer : s.producer ≡ ending
    consumer : s.consumer ≡ closed
    full : length s.queue ≡ maxsize

  Move-IsStuck : (s u : State) → Move others document_id current_user s u → IsStuck s → IsStuck u
  Move-IsStuck s u (act events p silent) i = absurd (ground (arith, i.producer, p))
  Move-IsStuck s u (put event rest p room) i = absurd (ground (arith, i.producer, p))
  Move-IsStuck s u (return p) i = absurd (ground (arith, i.producer, p))
  Move-IsStuck s u (put_end p room) i = absurd (ground (arith, i.full, room))
  Move-IsStuck s u (get event rest c q) i = absurd (ground (arith, i.consumer, c))
  Move-IsStuck s u (get_end rest c q) i = absurd (ground (arith, i.consumer, c))

  Step-IsStuck : (s u : State) → Step others document_id current_user s u → IsStuck s → IsStuck u
  Step-IsStuck s u (move m) i = Move-IsStuck s u m i
  Step-IsStuck s u (keep_alive c q) i = absurd (ground (arith, i.consumer, c))
  Step-IsStuck s u (disconnect c) i = absurd (ground (arith, i.consumer, c))

  Reach-IsStuck :
      (s : State) {u : State} → IsStuck s → Reach others document_id current_user s u → IsStuck u
  Reach-IsStuck s i here = i
  Reach-IsStuck s i (next r st) = Step-IsStuck _ _ st (Reach-IsStuck s i r)

  -- When the client goes while the generator still runs and the queue is full, the producer's task
  -- stays at the put of the end mark, however the tasks go on: it never returns.
  pub disconnected-ending :
      (events : Events) (s u : State)
      → s.producer ≡ producing events
      → length s.queue ≡ maxsize
      → Reach others document_id current_user (disconnected s) u
      → u.producer ≡ ending
  disconnected-ending events s u p full r =
      let start : IsStuck (disconnected s) = record {
        producer = ground (arith, p);
        consumer = refl;
        full = full;
      } in
      (Reach-IsStuck (disconnected s) start r).producer
