-- ===== src/Chunk.antt =====
-- internal/indexer/chunker.go: the windows of `fastChunk` and `splitIfNeeded`.
--
-- A text is the list of its runes, as `[]rune(text)` gives them. The type of `FunctionScore`, a
-- float that these functions only copy, is a parameter.
pub mod Tiles
pub mod Contents
pub mod Lines
mod Tests
use vector_mcp_go.Base.{
  ℕ, zero, suc, ◌+◌, ◌-◌, Bool, true, false, Option, none, some, List, [], ◌∷◌, map, length, take,
  drop, any, ltb, leb, ◌==◌, if◌then◌else◌,
}
use mathlib.Core.Option
use vector_mcp_go.Base.Text.{Text, text_eq}

pub record Chunk (F : Type 0) : Type 0 where
  pub content : Text
  pub contextual_string : Text
  pub symbols : List Text
  pub parent_symbol : Text
  pub relationships : List Text
  pub chunk_type : Text
  pub calls : List Text
  pub function_score : F
  pub start_line : ℕ
  pub end_line : ℕ
  pub docstring : Text
  pub structural_metadata : List (Text × Text)

-- `strings.Count(s, "\n")`
unfoldable pub count_lines : Text → ℕ
count_lines [] = 0
count_lines (c ∷ s) = (if c == b'\n' then 1 else 0) + count_lines s

-- `runes[i:end]`
abbrev pub slice : ℕ → ℕ → Text → Text
slice i end runes = take (end - i) (drop i runes)

abbrev pub window_end : ℕ → ℕ → ℕ → ℕ
window_end size n i = if ltb n (i + size) then n else i + size

-- The pairs `(i, end)` that the two loops go through, with fuel: `none` means that it ran out.
--   for i := 0; i < n; { end := min(i + size, n); …; if end == n { break }; i += size - overlap }
unfoldable pub windows : ℕ → ℕ → ℕ → ℕ → ℕ → Option (List (ℕ × ℕ))
windows size overlap zero n i = none
windows size overlap (suc fuel) n i =
    let rest = windows size overlap fuel n (i + (size - overlap)) in
    let end = window_end size n i in
    if ltb i n
    then (if end == n then some ((i, end) ∷ []) else Option.map (◌∷◌ (i, end)) rest)
    else some []

-- The body of the loop of `fastChunk`; the fields that it leaves out are zero.
unfoldable pub fast_piece : {F : Type 0} → F → Text → ℕ × ℕ → Chunk F
fast_piece zero_score runes (i, end) =
    let content = slice i end runes in
    let start_line = count_lines (take i runes) + 1 in
    record {
      content = content;
      contextual_string = content;
      symbols = [];
      parent_symbol = [];
      relationships = [];
      chunk_type = [];
      calls = [];
      function_score = zero_score;
      start_line = start_line;
      end_line = start_line + count_lines content;
      docstring = [];
      structural_metadata = [];
    }

-- `fastChunk` with its two constants as arguments, and with them in place.
unfoldable pub fast_chunk_with : {F : Type 0} → ℕ → ℕ → F → Text → Option (List (Chunk F))
unfolding windows fast_piece
fast_chunk_with chunk_size overlap zero_score [] = some []
fast_chunk_with chunk_size overlap zero_score (c ∷ s) =
    Option.map (map (fast_piece zero_score (c ∷ s)))
      (windows chunk_size overlap (suc (length (c ∷ s))) (length (c ∷ s)) 0)

abbrev pub fast_chunk : {F : Type 0} → F → Text → Option (List (Chunk F))
fast_chunk = fast_chunk_with 3000 500

-- The body of the loop of `splitIfNeeded`. The end line is set from the start line of the whole
-- chunk, before the start line is moved.
unfoldable pub split_piece : {F : Type 0} → Chunk F → ℕ × ℕ → Chunk F
split_piece c (i, end) =
    let sub_content = slice i end c.content in
    record c {
      content = sub_content;
      end_line = c.start_line + count_lines sub_content;
      start_line = if ltb 0 i then c.start_line + count_lines (take i c.content) else c.start_line;
    }

unfoldable pub split_if_needed_with : {F : Type 0} → ℕ → ℕ → Chunk F → Option (List (Chunk F))
unfolding windows split_piece
split_if_needed_with max_runes overlap c =
    if leb (length c.content) max_runes
    then some (c ∷ [])
    else Option.map (map (split_piece c))
        (windows max_runes overlap (suc (length c.content)) (length c.content) 0)

abbrev pub split_if_needed : {F : Type 0} → Chunk F → Option (List (Chunk F))
split_if_needed = split_if_needed_with 8000 800

-- The deduplication at the end of `parseRelationships`; `seen` is the map `unique`.
unfoldable pub seen_before : Text → List Text → Bool
seen_before r seen = any (text_eq r) seen

unfoldable pub unique_relations : List Text → List Text → List Text
unfolding seen_before
unique_relations seen [] = []
unique_relations seen (r ∷ rs) =
    if seen_before r seen then unique_relations seen rs else r ∷ unique_relations (r ∷ seen) rs
