-- ===== src/Chat/Prompts.antt =====
-- The prompt of a chat turn and the snapshot of its sources
-- (backend/src/sovereign_rag/chat/prompts.py).
use sovereign_rag.Base.{ℕ, suc, Option, none, some, List, [], ◌∷◌, ◌++◌, map, take}
use sovereign_rag.Text.{Text, codes, newline, join, decimal}
use sovereign_rag.Llm.{ChatMessage, system, user}
use sovereign_rag.Store.{Uuid, SearchHit}

abbrev pub system_prompt : Text
system_prompt = join (newline ∷ []) (
    codes "You are a careful documentation assistant."
    ∷ codes "Answer the question using ONLY the numbered context passages provided below."
    ∷ codes "Cite every passage you rely on with its bracketed number, e.g. [1] or [2][3]."
    ∷ codes "Answer in the language of the question."
    ∷ codes "If the context does not contain the answer, say so explicitly; never invent facts."
    ∷ [])

abbrev pub no_context_instruction : Text
no_context_instruction =
    codes "No relevant passage was found for this question. State clearly, in the "
    ++ (codes "language of the question, that nothing relevant was found in the document "
        ++ codes "base. Do not answer from your own knowledge.")

abbrev pub excerpt_length : ℕ
excerpt_length = 500

abbrev pub section_part : Option Text → Text
section_part none = []
section_part (some []) = []
section_part (some (c ∷ s)) = codes " - " ++ c ∷ s

abbrev pub page_part : Option ℕ → Text
page_part none = []
page_part (some n) = codes " - page " ++ decimal n

pub record SourceOut (Score : Type 0) : Type 0 where
  pub chunk_id : Uuid
  pub document_id : Uuid
  pub filename : Text
  pub section : Option Text
  pub page : Option ℕ
  pub excerpt : Text
  pub score : Score
  pub vec_rank : Option ℕ
  pub fts_rank : Option ℕ

module _ {Score : Type 0} where
  -- `if hit.section: location += …`, where an empty section counts as none
  unfoldable pub context_block : ℕ → SearchHit Score → (Text → Text) → Text
  context_block index hit redact =
      codes "["
      ++ (decimal index
          ++ (codes "] "
              ++ (hit.filename
                  ++ (section_part hit.section
                      ++ (page_part hit.page ++ (codes ":\n" ++ redact hit.content))))))

  -- the blocks, numbered from `index`
  unfoldable pub context_blocks : ℕ → List (SearchHit Score) → (Text → Text) → List Text
  unfolding context_block
  context_blocks index [] redact = []
  context_blocks index (hit ∷ hits) redact =
      context_block index hit redact ∷ context_blocks (suc index) hits redact

  unfoldable pub system_text : List (SearchHit Score) → (Text → Text) → Text
  unfolding context_blocks
  system_text [] redact = system_prompt ++ (codes "\n\n" ++ no_context_instruction)
  system_text (hit ∷ hits) redact =
      system_prompt
      ++ (codes "\n\nContext:\n\n" ++ join (codes "\n\n") (context_blocks 1 (hit ∷ hits) redact))

  unfoldable pub build_messages :
      List ChatMessage → Text → List (SearchHit Score) → (Text → Text) → List ChatMessage
  unfolding system_text
  build_messages history question hits redact =
      record { role = system; content = system_text hits redact }
      ∷ (history ++ record { role = user; content = question } ∷ [])

  abbrev pub source_of : SearchHit Score → SourceOut Score
  source_of hit = record {
    chunk_id = hit.chunk_id;
    document_id = hit.document_id;
    filename = hit.filename;
    section = hit.section;
    page = hit.page;
    excerpt = take excerpt_length hit.content;
    score = hit.score;
    vec_rank = hit.vec_rank;
    fts_rank = hit.fts_rank;
  }

  unfoldable pub hits_to_sources : List (SearchHit Score) → List (SourceOut Score)
  hits_to_sources hits = map source_of hits
