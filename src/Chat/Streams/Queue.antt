-- ===== src/Chat/Streams/Queue.antt =====
-- The queue between the generator of the events and the response, at the end of
-- query_document_stream_events_command: the producer's task, and the generator that drains the queue.
use vector_doc_qa.Prelude.{
  ℕ, ◌+◌, ◌<◌, ◌≡◌, Bool, true, false, Option, none, some, List, [], ◌∷◌, ◌++◌, length,
}
use vector_doc_qa.Models.{User}
use vector_doc_qa.Database.{Db, Session}
use vector_doc_qa.Chat.Streams.{
  Event, Events, finish, yield, set_usage, consume_usage, persist, persist_assistant_message,
}

-- asyncio.Queue(maxsize=16)
abbrev pub maxsize : ℕ
maxsize = 16

-- _produce_events: in its loop, at the put of its `finally`, or returned.
pub data Producer : Type 0 where
  producing : Events → Producer
  ending : Producer
  stopped : Producer

-- _drain_events: in its loop, after the end mark, or left by a client that is gone.
pub data Consumer : Type 0 where
  draining : Consumer
  finished : Consumer
  closed : Consumer

-- The end mark in the queue is `none`.
pub record State : Type 0 where
  pub producer : Producer
  pub queue : List (Option Event)
  pub consumer : Consumer
  pub delivered : List Event
  pub heartbeats : ℕ
  pub session : Session

abbrev pub initial : Events → Session → State
initial events session = record {
  producer = producing events;
  queue = [];
  consumer = draining;
  delivered = [];
  heartbeats = 0;
  session = session;
}

-- producer_task.cancel(): the exception is raised where the task waits. The end mark is put in
-- `finally`, unless that is where it was.
abbrev pub cancel : Producer → Producer
cancel (producing events) = ending
cancel ending = stopped
cancel stopped = stopped

abbrev pub disconnected : State → State
disconnected s = record s { consumer = closed; producer = cancel s.producer }

module _ (others : Db → Db) (document_id : ℕ) (current_user : User) where
  -- What the generator does between two events.
  abbrev pub is_silent : Events → Bool
  is_silent finish = false
  is_silent (yield event rest) = false
  is_silent _ = true

  unfoldable pub perform : Events → Session → Events × Session
  unfolding persist_assistant_message
  perform finish s = (finish, s)
  perform (yield event rest) s = (yield event rest, s)
  perform (set_usage usage rest) s = (rest, record s { stream_usage = usage })
  perform (consume_usage rest) s = (rest s.stream_usage, record s { stream_usage = none })
  perform (persist content sources_payload rest) s =
      let (id, s') =
        persist_assistant_message others document_id current_user content sources_payload s in
      (rest id, s')

  -- The steps of the two tasks, and a client that goes.
  pub data Move (s : State) : State → Type 0 where
    act :
        (events : Events)
        → s.producer ≡ producing events
        → is_silent events ≡ true
        → Move s (record s {
          producer = producing (perform events s.session).0;
          session = (perform events s.session).1;
        })
    put :
        (event : Event) (rest : Events)
        → s.producer ≡ producing (yield event rest)
        → length s.queue < maxsize
        → Move s (record s { producer = producing rest; queue = s.queue ++ some event ∷ [] })
    return : s.producer ≡ producing finish → Move s (record s { producer = ending })
    put_end :
        s.producer ≡ ending
        → length s.queue < maxsize
        → Move s (record s { producer = stopped; queue = s.queue ++ none ∷ [] })
    get :
        (event : Event) (rest : List (Option Event))
        → s.consumer ≡ draining
        → s.queue ≡ some event ∷ rest
        → Move s (record s { queue = rest; delivered = s.delivered ++ event ∷ [] })
    get_end :
        (rest : List (Option Event))
        → s.consumer ≡ draining
        → s.queue ≡ none ∷ rest
        → Move s (record s { queue = rest; consumer = finished; producer = cancel s.producer })

  -- The wait for an event times out on an empty queue, and the client may go at any time.
  pub data Step (s : State) : State → Type 0 where
    move : {u : State} → Move s u → Step s u
    keep_alive :
        s.consumer ≡ draining → s.queue ≡ [] → Step s (record s { heartbeats = s.heartbeats + 1 })
    disconnect : s.consumer ≡ draining → Step s (disconnected s)

  pub data Reach (s : State) : State → Type 0 where
    here : Reach s s
    next : {t u : State} → Reach s t → Step t u → Reach s u
