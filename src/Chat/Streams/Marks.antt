-- ===== src/Chat/Streams/Marks.antt =====
-- The items of the queue: events, and the mark that ends them.
use mathlib.Core.List.{append_assoc}
use vector_doc_qa.Prelude.{
  ◌≡◌, refl, ap, sym, ◌∙◌, Bool, true, false, Option, none, some, List, [], ◌∷◌, ◌++◌, all, is_some,
  arith,
}
use vector_doc_qa.Chat.Streams.{Event}
use vector_doc_qa.Chat.Streams.Queue.{
  Producer, producing, ending, stopped, Consumer, draining, finished, closed,
}

abbrev pub payloads : List (Option Event) → List Event
payloads [] = []
payloads (none ∷ queue) = payloads queue
payloads (some event ∷ queue) = event ∷ payloads queue

-- The end mark is the last item.
abbrev pub ends_marked : List (Option Event) → Bool
ends_marked (none ∷ []) = true
ends_marked (some event ∷ queue) = ends_marked queue
ends_marked _ = false

abbrev pub is_marked : Producer → Consumer → List (Option Event) → Bool
is_marked producer closed queue = true
is_marked (producing events) draining queue = all is_some queue
is_marked ending draining queue = all is_some queue
is_marked stopped draining queue = ends_marked queue
is_marked stopped finished [] = true
is_marked _ _ _ = false

abbrev pub is_connected : Consumer → Bool
is_connected closed = false
is_connected _ = true

pub payloads-put :
    (queue : List (Option Event)) (event : Event)
    → payloads (queue ++ some event ∷ []) ≡ payloads queue ++ event ∷ []
payloads-put [] event = refl
payloads-put (none ∷ queue) event = payloads-put queue event
payloads-put (some e ∷ queue) event = rw (payloads-put queue event)

pub payloads-put_end :
    (queue : List (Option Event)) → payloads (queue ++ none ∷ []) ≡ payloads queue
payloads-put_end [] = refl
payloads-put_end (none ∷ queue) = payloads-put_end queue
payloads-put_end (some e ∷ queue) = rw (payloads-put_end queue)

pub all-put :
    (queue : List (Option Event)) (event : Event)
    → all is_some queue ≡ true
    → all is_some (queue ++ some event ∷ []) ≡ true
all-put [] event h = refl
all-put (none ∷ queue) event h = h
all-put (some e ∷ queue) event h = all-put queue event h

pub ends_marked-put_end :
    (queue : List (Option Event))
    → all is_some queue ≡ true
    → ends_marked (queue ++ none ∷ []) ≡ true
ends_marked-put_end [] h = refl
ends_marked-put_end (none ∷ queue) h = absurd (ground arith)
ends_marked-put_end (some e ∷ queue) h = ends_marked-put_end queue h

pub put-shift :
    (xs ys zs : List Event) (event : Event)
    → xs ++ (ys ++ event ∷ []) ++ zs ≡ xs ++ ys ++ event ∷ zs
put-shift xs ys zs event =
    ap (λ l. l ++ zs) (sym (append_assoc xs ys (event ∷ [])))
    ∙ append_assoc (xs ++ ys) (event ∷ []) zs

pub get-shift :
    (xs ys zs : List Event) (event : Event) → xs ++ event ∷ [] ++ ys ++ zs ≡ xs ++ event ∷ ys ++ zs
get-shift xs ys zs event = ap (λ l. l ++ zs) (append_assoc xs (event ∷ []) ys)

-- Nothing stands behind the end mark.
pub ends_marked-tail :
    (queue : List (Option Event)) → ends_marked (none ∷ queue) ≡ true → queue ≡ []
ends_marked-tail [] h = refl
ends_marked-tail (e ∷ queue) h = absurd (ground arith)
