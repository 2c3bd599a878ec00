-- ===== src/Chunk/Tests.antt =====
-- Runs of internal/indexer/chunker.go on short texts, with windows of four runes and an overlap of
-- one.
use vector_mcp_go.Base.{ℕ, ◌≤◌, ◌<◌, ◌≡◌, refl, none, some, List, [], ◌∷◌, length, arith, All}
use vector_mcp_go.Base.Text.{Text, codes}
use vector_mcp_go.Chunk.{
  Chunk, windows, count_lines, fast_piece, fast_chunk_with, split_piece, split_if_needed_with,
}
use vector_mcp_go.Chunk.Contents.{stitch, contents, fast_chunk-stitch, split_if_needed-stitch}
use vector_mcp_go.Chunk.Lines.{split_piece-reversed}

abbrev lines : Text
lines = codes "ab\ncd\nef"

fast_chunk_lines :
    (elim (fast_chunk_with {F = ℕ} 4 1 0 lines) [ none ↦ [] | some cs ↦ contents cs ])
    ≡ codes "ab\nc" ∷ codes "cd\ne" ∷ codes "ef" ∷ []
unfolding fast_chunk_with windows fast_piece
fast_chunk_lines = refl

fast_chunk-stitch_example :
    (cs : List (Chunk ℕ)) × (fast_chunk_with 4 1 0 lines ≡ some cs)
    × (stitch 1 (contents cs) ≡ lines)
    × All (λ c. length c ≤ 4) (contents cs)
fast_chunk-stitch_example = fast_chunk-stitch 4 1 0 lines (omega arith)

-- A function on the lines 10 to 13.
abbrev long_chunk : Chunk ℕ
long_chunk = record {
  content = codes "ab\ncd\nef";
  contextual_string = [];
  symbols = [];
  parent_symbol = [];
  relationships = [];
  chunk_type = codes "function";
  calls = [];
  function_score = 0;
  start_line = 10;
  end_line = 13;
  docstring = [];
  structural_metadata = [];
}

split_if_needed-stitch_example :
    (cs : List (Chunk ℕ)) × (split_if_needed_with 4 1 long_chunk ≡ some cs)
    × (stitch 1 (contents cs) ≡ long_chunk.content)
    × All (λ t. length t ≤ 4) (contents cs)
split_if_needed-stitch_example = split_if_needed-stitch 4 1 long_chunk (omega arith)

-- The last piece, "ef", begins on line 12 and is said to end on line 10.
split_piece-reversed_example :
    (split_piece long_chunk (6, 8)).end_line < (split_piece long_chunk (6, 8)).start_line
split_piece-reversed_example =
    split_piece-reversed long_chunk 6 8 (omega arith) (unfold count_lines in omega arith)

abbrev relations : List Text
relations = codes "fmt" ∷ codes "os" ∷ codes "fmt" ∷ []
