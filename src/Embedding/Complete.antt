-- ===== src/Embedding/Complete.antt =====
-- A complete response is accepted: one item for each text, in any order.
use mathlib.Core.List.{append_assoc, append-nil}
use vector_doc_qa.Prelude.{
  ℕ, zero, suc, ◌+◌, ◌<◌, ◌≡◌, refl, ◌∙◌, true, false, List, [], ◌∷◌, ◌++◌, map, ◌==◌, arith,
  length, length-map, All, is_some, ==_refl,
}
use vector_doc_qa.Errors.{ok, is_ok}
use vector_doc_qa.Models.{Vector}
use vector_doc_qa.Embedding.{
  EmbeddingItem, embedding_dimensions, ByIndex, lookup, has_index, collect, in_order,
  order_embeddings,
}
use vector_doc_qa.Embedding.Alignment.{embedding_of, lookup-collect}

-- No two items have one index.
abbrev pub Distinct : List EmbeddingItem → Type 0
Distinct [] = Unit
Distinct (x ∷ xs) = All (λ (y : EmbeddingItem). (x.index == y.index) ≡ false) xs × Distinct xs

pub record IsComplete (count : ℕ) (items : List EmbeddingItem) : Type 0 where
  pub dimensions : All (λ (x : EmbeddingItem). length x.embedding ≡ embedding_dimensions) items
  pub distinct : Distinct items
  pub size : length items ≡ count
  pub present : (i : ℕ) → i < count → is_some (embedding_of i items) ≡ true

abbrev entry : EmbeddingItem → ℕ × Vector
entry x = (x.index, x.embedding)

abbrev Unseen : ByIndex → List EmbeddingItem → Type 0
Unseen by_index = All (λ (x : EmbeddingItem). has_index x.index by_index ≡ false)

has_index-snoc :
    (by_index : ByIndex) (k i : ℕ) (v : Vector)
    → has_index i by_index ≡ false
    → (k == i) ≡ false
    → has_index i (by_index ++ (k, v) ∷ []) ≡ false
has_index-snoc [] k i v h e = ground arith
has_index-snoc (x ∷ xs) k i v h e = ground (arith, has_index-snoc xs k i v)

Unseen-snoc :
    (by_index : ByIndex) (x : EmbeddingItem) (items : List EmbeddingItem)
    → Unseen by_index items
    → All (λ (y : EmbeddingItem). (x.index == y.index) ≡ false) items
    → Unseen (by_index ++ entry x ∷ []) items
Unseen-snoc by_index x [] h d = tt
Unseen-snoc by_index x (y ∷ items) h d = (
  has_index-snoc by_index x.index y.index x.embedding h.0 d.0,
  Unseen-snoc by_index x items h.1 d.1,
)

collect_complete :
    (items : List EmbeddingItem) (by_index : ByIndex)
    → All (λ (x : EmbeddingItem). length x.embedding ≡ embedding_dimensions) items
    → Distinct items
    → Unseen by_index items
    → collect items by_index ≡ ok (by_index ++ map entry items)
unfolding collect
collect_complete [] by_index dims d u = rw append-nil
collect_complete (x ∷ items) by_index dims d u =
    let ih =
      collect_complete items (by_index ++ entry x ∷ []) dims.1 d.1
        (Unseen-snoc by_index x items u.1 d.0) in
    rw (u.0, dims.0) (ih ∙ rw append_assoc)

in_order_complete :
    (rounds index : ℕ) (by_index : ByIndex)
    → ((i : ℕ) → i < index + rounds → is_some (lookup i by_index) ≡ true)
    → is_ok (in_order rounds index by_index) ≡ true
unfolding in_order
in_order_complete zero index by_index h = refl
in_order_complete (suc rounds) index by_index h = ground (
  arith,
  h index (omega arith),
  in_order_complete rounds (suc index) by_index (λ i k. h i (omega arith)),
)

Unseen-nil : (items : List EmbeddingItem) → Unseen [] items
Unseen-nil [] = tt
Unseen-nil (x ∷ items) = (refl, Unseen-nil items)

present-lookup :
    (i : ℕ) (items : List EmbeddingItem)
    → collect items [] ≡ ok (map entry items)
    → is_some (embedding_of i items) ≡ true
    → is_some (lookup i (map entry items)) ≡ true
unfolding lookup
present-lookup i items collected h = rw (lookup-collect i items [] (map entry items) collected) h

-- A response with one item of the right dimension for each index below the count, and no other, is
-- accepted in any order.
pub order_embeddings_complete :
    (count : ℕ) (items : List EmbeddingItem)
    → IsComplete count items
    → is_ok (order_embeddings count items) ≡ true
unfolding order_embeddings
order_embeddings_complete count items c =
    let collected = collect_complete items [] c.dimensions c.distinct (Unseen-nil items) in
    let size : length (map entry items) ≡ count = length-map entry items ∙ c.size in
    rw (collected, size, ==_refl count)
      (in_order_complete count 0 (map entry items)
        (λ i k. present-lookup i items collected (c.present i (omega arith))))
