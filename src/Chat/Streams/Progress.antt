-- ===== src/Chat/Streams/Progress.antt =====
-- A stream whose client stays can always be completed.
use vector_doc_qa.Prelude.{ℕ, ◌≡◌, refl, true, Option, none, some, List, [], ◌∷◌, arith}
use vector_doc_qa.Models.{User}
use vector_doc_qa.Database.{Db, Session}
use vector_doc_qa.Chat.Streams.{Event, Events, finish, yield, set_usage, consume_usage, persist}
use vector_doc_qa.Chat.Streams.Queue.{
  Producer, producing, ending, stopped, draining, finished, State, initial, perform, Move, act, put,
  return, put_end, get, get_end, move, Reach, here, next,
}
use vector_doc_qa.Chat.Streams.Marks.{is_marked}
use vector_doc_qa.Chat.Streams.Delivery.{Reach-IsFaithful}

module _ (others : Db → Db) (document_id : ℕ) (current_user : User) where
  abbrev Runs : State → State → Type 0
  Runs = Reach others document_id current_user

  Reach-append : {s t u : State} → Runs s t → Runs t u → Runs s u
  Reach-append r here = r
  Reach-append r (next q st) = next (Reach-append r q) st

  -- A state from which the client can come to the end.
  pub record CanFinish (s : State) : Type 0 where
    pub last : State
    pub run : Runs s last
    pub done : last.consumer ≡ finished

  first : {s t : State} → Move others document_id current_user s t → CanFinish t → CanFinish s
  first m c = record { last = c.last; run = Reach-append (next here (move m)) c.run; done = c.done }

  -- From an empty queue, by what the generator has still to do.
  from_empty :
      (events : Events) (s : State)
      → s.producer ≡ producing events
      → s.queue ≡ []
      → s.consumer ≡ draining
      → CanFinish s
  unfolding perform
  from_empty finish s p q c = first (return p) (
      first (put_end refl (ground (arith, q)))
        (first (get_end [] c (ground (arith, q))) (record { last = _; run = here; done = refl })))
  from_empty (yield event rest) s p q c =
      first (put event rest p (ground (arith, q)))
        (first (get event [] c (ground (arith, q))) (from_empty rest _ refl refl c))
  from_empty (set_usage usage rest) s p q c = first (act _ p refl) (from_empty rest _ refl q c)
  from_empty (consume_usage rest) s p q c =
      first (act _ p refl) (from_empty (rest s.session.stream_usage) _ refl q c)
  from_empty (persist content payload rest) s p q c =
      first (act _ p refl) (from_empty (rest _) _ refl q c)

  ending_empty :
      (s : State) → s.producer ≡ ending → s.queue ≡ [] → s.consumer ≡ draining → CanFinish s
  ending_empty s p q c =
      first (put_end p (ground (arith, q)))
        (first (get_end [] c (ground (arith, q))) (record { last = _; run = here; done = refl }))

  from_queue :
      (queue : List (Option Event)) (producer : Producer) (s : State)
      → s.producer ≡ producer
      → s.queue ≡ queue
      → s.consumer ≡ draining
      → is_marked producer draining queue ≡ true
      → CanFinish s
  from_queue [] (producing events) s p q c m = from_empty events s p q c
  from_queue [] ending s p q c m = ending_empty s p q c
  from_queue [] stopped s p q c m = absurd (ground arith)
  from_queue (some event ∷ queue) producer s p q c m =
      first (get event queue c q) (from_queue queue producer _ p refl c (ground (arith, m)))
  from_queue (none ∷ queue) producer s p q c m =
      first (get_end queue c q) (record { last = _; run = here; done = refl })

  -- From every state that the two tasks reach while the client is still there, they have steps with
  -- which the client comes to the end of the stream.
  pub Reach-CanFinish :
      (events : Events) (s : Session) (u : State)
      → Runs (initial events s) u
      → u.consumer ≡ draining
      → CanFinish u
  Reach-CanFinish events s u r c =
      let i = Reach-IsFaithful others document_id current_user events s r in
      from_queue u.queue u.producer u refl refl c (ground (arith, i.marked, c))
