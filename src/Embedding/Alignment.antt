-- ===== src/Embedding/Alignment.antt =====
-- The embeddings of a batch come back in the order of its texts, whatever the order of the response.
use vector_doc_qa.Prelude.{
  ℕ, zero, suc, ◌+◌, ◌<◌, ◌≡◌, refl, Option, none, some, List, [], ◌∷◌, ◌++◌, ◌==◌, arith, length,
  get_elem?, if◌then◌else◌, ◌∙◌, inl, inr, is_some, Option-cases, Bool-cases,
}
use vector_doc_qa.Errors.{ok, Result-cases}
use vector_doc_qa.Models.{Vector}
use vector_doc_qa.Embedding.{
  EmbeddingItem, ByIndex, lookup, has_index, collect, in_order, order_embeddings,
}

-- The embedding that the response gives for an index: that of the first item with it.
abbrev pub embedding_of : ℕ → List EmbeddingItem → Option Vector
embedding_of index [] = none
embedding_of index (item ∷ items) =
    if item.index == index then some item.embedding else embedding_of index items

abbrev pub or_else : Option Vector → Option Vector → Option Vector
or_else none b = b
or_else (some a) b = some a

lookup-append :
    (index : ℕ) (xs ys : ByIndex)
    → lookup index (xs ++ ys) ≡ or_else (lookup index xs) (lookup index ys)
unfolding lookup
lookup-append index [] ys = refl
lookup-append index ((k, v) ∷ xs) ys = ground (arith, lookup-append index xs ys)

has_index-lookup : (index : ℕ) (xs : ByIndex) → has_index index xs ≡ is_some (lookup index xs)
unfolding lookup
has_index-lookup index [] = refl
has_index-lookup index ((k, v) ∷ xs) = ground (arith, has_index-lookup index xs)

-- What is collected answers for each index as the response does.
pub lookup-collect :
    (index : ℕ) (items : List EmbeddingItem) (by_index out : ByIndex)
    → collect items by_index ≡ ok out
    → lookup index out ≡ or_else (lookup index by_index) (embedding_of index items)
unfolding collect lookup
lookup-collect index [] by_index out h = ground arith
lookup-collect index (item ∷ items) by_index out h =
    let ih = lookup-collect index items (by_index ++ (item.index, item.embedding) ∷ []) out in
    ground (
      arith,
      ih,
      lookup-append index by_index ((item.index, item.embedding) ∷ []),
      has_index-lookup item.index by_index,
    )

length-in_order :
    (rounds index : ℕ) (by_index : ByIndex) (vs : List Vector)
    → in_order rounds index by_index ≡ ok vs
    → length vs ≡ rounds
unfolding in_order
length-in_order zero index by_index vs h = ground arith
length-in_order (suc rounds) index by_index vs h = elim (Option-cases (lookup index by_index)) [
  | inl missing ↦ ground arith
  | inr (v, found) ↦ elim (Result-cases (in_order rounds (suc index) by_index)) [
    | inl (rest, done) ↦ ground (arith, length-in_order rounds (suc index) by_index rest done)
    | inr (e, failed) ↦ ground arith
  ]
]

get_elem?-in_order :
    (rounds index i : ℕ) (by_index : ByIndex) (vs : List Vector)
    → in_order rounds index by_index ≡ ok vs
    → i < rounds
    → get_elem? vs i ≡ lookup (index + i) by_index
unfolding in_order
get_elem?-in_order zero index i by_index vs h k = elim k [ ]
get_elem?-in_order (suc rounds) index i by_index vs h k =
    elim (Option-cases (lookup index by_index)) [
      | inl missing ↦ ground arith
      | inr (v, found) ↦ elim (Result-cases (in_order rounds (suc index) by_index)) [
        | inl (rest, done) ↦
            head_or_tail rounds index i by_index v rest vs found (ground arith)
              (λ j lt. get_elem?-in_order rounds (suc index) j by_index rest done lt) k
        | inr (e, failed) ↦ ground arith
      ]
    ]
  where
    head_or_tail :
        (rounds index i : ℕ) (by_index : ByIndex) (v : Vector) (rest vs : List Vector)
        → lookup index by_index ≡ some v
        → vs ≡ v ∷ rest
        → ((j : ℕ) → j < rounds → get_elem? rest j ≡ lookup (suc index + j) by_index)
        → i < suc rounds
        → get_elem? vs i ≡ lookup (index + i) by_index
    head_or_tail rounds index zero by_index v rest vs found e later k =
        let p : index + 0 ≡ index = omega arith in rw (e, p, found)
    head_or_tail rounds index (suc j) by_index v rest vs found e later k =
        let p : index + suc j ≡ suc index + j = omega arith in rw (e, p) (later j (omega arith))

-- If the response is accepted, there is one embedding for each text, and the one at a text's place
-- is the one that the response gives for that index, whatever the order of the response.
pub order_embeddings-aligned :
    (count : ℕ) (items : List EmbeddingItem) (vs : List Vector)
    → order_embeddings count items ≡ ok vs
    → (length vs ≡ count) × ((i : ℕ) → i < count → get_elem? vs i ≡ embedding_of i items)
unfolding order_embeddings
order_embeddings-aligned count items vs h = elim (Result-cases (collect items [])) [
  | inr (e, failed) ↦ ground arith
  | inl (by_index, done) ↦ elim (Bool-cases (length by_index == count)) [
    | inr other ↦ ground arith
    | inl same ↦
        let ordered : in_order count 0 by_index ≡ ok vs = ground arith in
        (
          length-in_order count 0 by_index vs ordered,
          λ i k.
              let p : 0 + i ≡ i = omega arith in
              get_elem?-in_order count 0 i by_index vs ordered k
              ∙ rw p (unfold lookup in lookup-collect i items [] by_index done),
        )
  ]
]
