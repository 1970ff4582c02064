-- ===== src/Tests/Prompts.antt =====
-- The prompt at a concrete input.
use vector_doc_qa.Prelude.{◌≡◌, refl, All, none, some, [], ◌∷◌, ◌++◌}
use vector_doc_qa.Text.Write.{codes, str_int, join_with}
use vector_doc_qa.Models.{user, assistant}
use vector_doc_qa.Chat.Sources.{SearchResult}
use vector_doc_qa.Anthropic.Prompt.{build_prompt, history_section, excerpts_from, history_lines}
use vector_doc_qa.Anthropic.Content.{Occurs, IsQuoted, build_prompt-Occurs}
use vector_doc_qa.Tests.Data.{one_result, short_text}

str_int_test : str_int 1203 ≡ codes "1203"
unfolding str_int
str_int_test = refl

join_with_test : join_with (codes ", ") (codes "a" ∷ codes "b" ∷ []) ≡ codes "a, b"
unfolding join_with
join_with_test = refl

history_section_test :
    history_section ((user, codes " hi ") ∷ (assistant, codes " ") ∷ [])
    ≡ codes "Recent conversation history (oldest to newest):\nUser: hi\n\n"
unfolding history_section history_lines join_with vector_doc_qa.Text.strip
    vector_doc_qa.Text.is_space
history_section_test = refl

abbrev named_result : SearchResult
named_result = record one_result { document = some (2, codes "a.pdf") }

excerpts_from_test :
    join_with
      (codes "\n\n")
      (excerpts_from vector_doc_qa.Prelude.true 1 (named_result ∷ one_result ∷ []))
    ≡ codes "Excerpt 1 (from \"a.pdf\"):\nab cd\n\nExcerpt 2:\nab cd"
unfolding excerpts_from join_with str_int
excerpts_from_test = refl

build_prompt-Occurs_example :
    Occurs short_text (build_prompt short_text (one_result ∷ []) ((user, short_text) ∷ []))
    × All
        (λ (c : SearchResult).
          Occurs c.content (build_prompt short_text (one_result ∷ []) ((user, short_text) ∷ [])))
        (one_result ∷ [])
    × All
        (IsQuoted (build_prompt short_text (one_result ∷ []) ((user, short_text) ∷ [])))
        ((user, short_text) ∷ [])
build_prompt-Occurs_example =
    build_prompt-Occurs short_text (one_result ∷ []) ((user, short_text) ∷ [])
