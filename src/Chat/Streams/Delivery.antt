-- ===== src/Chat/Streams/Delivery.antt =====
-- The queue delivers the events in the order in which they are produced.
use mathlib.Core.List.{append_assoc, append-nil}
use vector_doc_qa.Prelude.{
  ℕ, ◌≤◌, ◌≡◌, refl, true, none, some, List, [], ◌∷◌, ◌++◌, length, arith, length-append,
}
use vector_doc_qa.Models.{User}
use vector_doc_qa.Database.{Db, Session}
use vector_doc_qa.Chat.Streams.{
  Event, Events, finish, yield, set_usage, consume_usage, persist, run_events,
}
use vector_doc_qa.Chat.Streams.Queue.{
  maxsize, Producer, producing, finished, State, initial, is_silent, perform, Move, act, put,
  return, put_end, get, get_end, Step, move, keep_alive, disconnect, Reach, here, next,
}
use vector_doc_qa.Chat.Streams.Marks.{
  payloads, is_marked, is_connected, payloads-put, payloads-put_end, all-put, ends_marked-put_end,
  put-shift, get-shift, ends_marked-tail,
}

module _ (others : Db → Db) (document_id : ℕ) (current_user : User) where
  abbrev to_come : Producer → Session → List Event × Session
  to_come (producing events) s = run_events others document_id current_user events s
  to_come _ s = ([], s)

  run-perform :
      (events : Events) (s : Session)
      → is_silent others document_id current_user events ≡ true
      → run_events others document_id current_user
          (perform others document_id current_user events s).0
          (perform others document_id current_user events s).1
        ≡ run_events others document_id current_user events s
  unfolding run_events perform
  run-perform finish s h = refl
  run-perform (yield event rest) s h = refl
  run-perform (set_usage usage rest) s h = refl
  run-perform (consume_usage rest) s h = refl
  run-perform (persist content payload rest) s h = refl

  -- Of the run of a generator to its end, `ran`: what is delivered, queued and still to come.
  pub record IsFaithful (ran : List Event × Session) (s : State) : Type 0 where
    pub bounded : length s.queue ≤ maxsize
    pub marked : is_marked s.producer s.consumer s.queue ≡ true
    pub in_order :
        is_connected s.consumer ≡ true
        → (s.delivered ++ payloads s.queue ++ (to_come s.producer s.session).0 ≡ ran.0)
          × ((to_come s.producer s.session).1 ≡ ran.1)
    pub prefix : (rest : List Event) × (s.delivered ++ rest ≡ ran.0)

  Move-IsFaithful :
      (ran : List Event × Session) (s u : State)
      → Move others document_id current_user s u
      → IsFaithful ran s
      → IsFaithful ran u
  unfolding run_events
  Move-IsFaithful ran s u (act events p silent) i = record {
    bounded = i.bounded;
    marked = ground (arith, i.marked, p);
    in_order = λ c. ground (arith, i.in_order c, p, run-perform events s.session silent);
    prefix = i.prefix;
  }
  Move-IsFaithful ran s u (put event rest p room) i = record {
    bounded = omega (arith, length-append s.queue (some event ∷ []));
    marked = ground (arith, i.marked, p, all-put s.queue event);
    in_order = λ c. ground (
      arith,
      i.in_order c,
      p,
      payloads-put s.queue event,
      put-shift s.delivered (payloads s.queue)
          (run_events others document_id current_user rest s.session).0 event,
    );
    prefix = i.prefix;
  }
  Move-IsFaithful ran s u (return p) i = record {
    bounded = i.bounded;
    marked = ground (arith, i.marked, p);
    in_order = λ c. ground (arith, i.in_order c, p);
    prefix = i.prefix;
  }
  Move-IsFaithful ran s u (put_end p room) i = record {
    bounded = omega (arith, length-append s.queue (none ∷ []));
    marked = ground (arith, i.marked, p, ends_marked-put_end s.queue);
    in_order = λ c. ground (arith, i.in_order c, p, payloads-put_end s.queue);
    prefix = i.prefix;
  }
  Move-IsFaithful ran s u (get event rest c q) i = record {
    bounded = ground (arith, i.bounded, q);
    marked = ground (arith, i.marked, c, q);
    in_order = λ k. ground (
      arith,
      i.in_order k,
      q,
      get-shift s.delivered (payloads rest) (to_come s.producer s.session).0 event,
    );
    prefix = (
      payloads rest ++ (to_come s.producer s.session).0,
      ground (
        arith,
        i.in_order (ground (arith, c)),
        q,
        get-shift s.delivered (payloads rest) (to_come s.producer s.session).0 event,
        append_assoc (s.delivered ++ event ∷ []) (payloads rest) (to_come s.producer s.session).0,
      ),
    );
  }
  Move-IsFaithful ran s u (get_end rest c q) i = record {
    bounded = ground (arith, i.bounded, q);
    marked = ground (arith, i.marked, c, q, ends_marked-tail rest);
    in_order = λ k. ground (arith, i.in_order, i.marked, c, q);
    prefix = i.prefix;
  }

  Step-IsFaithful :
      (ran : List Event × Session) (s u : State)
      → Step others document_id current_user s u
      → IsFaithful ran s
      → IsFaithful ran u
  Step-IsFaithful ran s u (move m) i = Move-IsFaithful ran s u m i
  Step-IsFaithful ran s u (keep_alive c q) i = record {
    bounded = i.bounded;
    marked = i.marked;
    in_order = i.in_order;
    prefix = i.prefix;
  }
  Step-IsFaithful ran s u (disconnect c) i = record {
    bounded = i.bounded;
    marked = refl;
    in_order = λ k. absurd (ground arith);
    prefix = i.prefix;
  }

  pub Reach-IsFaithful :
      (events : Events) (s : Session) {u : State}
      → Reach others document_id current_user (initial events s) u
      → IsFaithful (run_events others document_id current_user events s) u
  Reach-IsFaithful events s here = record {
    bounded = omega arith;
    marked = refl;
    in_order = λ k. (refl, refl);
    prefix = (_, refl);
  }
  Reach-IsFaithful events s (next r st) = Step-IsFaithful _ _ _ st (Reach-IsFaithful events s r)

  -- However the two tasks take turns, the queue never holds more than 16 items, and what the client
  -- has received is a beginning of what the generator yields.
  pub Reach-bounded :
      (events : Events) (s : Session) (u : State)
      → Reach others document_id current_user (initial events s) u
      → (length u.queue ≤ maxsize)
        × ((rest : List Event) × (u.delivered ++ rest
              ≡ (run_events others document_id current_user events s).0))
  Reach-bounded events s u r = let i = Reach-IsFaithful events s r in (i.bounded, i.prefix)

  -- When the client has seen the end of the stream, it has received exactly the events that the
  -- generator yields, in order, and the database is as the generator leaves it.
  pub Reach-delivered :
      (events : Events) (s : Session) (u : State)
      → Reach others document_id current_user (initial events s) u
      → u.consumer ≡ finished
      → (u.delivered ≡ (run_events others document_id current_user events s).0)
        × (u.session ≡ (run_events others document_id current_user events s).1)
  Reach-delivered events s u r f =
      let i = Reach-IsFaithful events s r in
      ground (arith, i.in_order, i.marked, f, append-nil u.delivered)
