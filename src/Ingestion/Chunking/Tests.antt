-- ===== src/Ingestion/Chunking/Tests.antt =====
-- Chunking at small documents.
use sovereign_rag.Base.{◌≡◌, refl, none, some, List, [], ◌∷◌, arith, Every}
use sovereign_rag.Text.{Text, codes, newline, join, strip, is_space, same_text}
use sovereign_rag.Effects.{ok, Never, Allowed}
use sovereign_rag.Faults.{concat_each}
use sovereign_rag.Ingestion.Extract.{ExtractedDoc}
use sovereign_rag.Ingestion.Chunking.Units.{
  hard_cuts, sentences, paragraphs, sentence_units, paragraph_units, atomic_units,
}
use sovereign_rag.Ingestion.Chunking.Tail.{align, overlap_tail}
use sovereign_rag.Ingestion.Chunking.Pack.{pack_step, pack}
use sovereign_rag.Ingestion.Chunking.Split.{append_pieces, chunk_fragments}
use sovereign_rag.Ingestion.Chunking.Bounds.{FitsIn}
use sovereign_rag.Ingestion.Chunking.Limits.{AreDrafts}
use sovereign_rag.Ingestion.Chunking.Drafts.{heading_of, chunk_fragments-AreDrafts}
use sovereign_rag.Ingestion.Chunking.Ink.{ink, flat, atomic_units-lossless}
use sovereign_rag.Ingestion.Chunking.Coverage.{StandsIn, pack-covers}
use sovereign_rag.Ingestion.Chunking.Joined.{join-pack}
use sovereign_rag.Ingestion.Chunking.Align.{IsAligned, overlap_tail-IsAligned}

abbrev act : ExtractedDoc
act = record {
  fragments =
      record {
        text = codes "One duty. Two duties!\n\nThree";
        section = some (codes "Art. 1");
        page = none;
      }
      ∷ record { text = codes "Four"; section = none; page = none }
      ∷ [];
  meta = [];
}

chunk_fragments-AreDrafts_example :
    Allowed
      (AreDrafts 12 6 (heading_of act (codes "md")))
      Never
      (chunk_fragments act (codes "md") 12 6)
chunk_fragments-AreDrafts_example = chunk_fragments-AreDrafts act (codes "md") 12 6 (omega arith)

atomic_units-lossless_example :
    Allowed
      (λ units. Every (FitsIn 12) units × (ink (flat units) ≡ ink (codes "One duty. Two\n\nThree")))
      Never
      (atomic_units 12 (codes "One duty. Two\n\nThree"))
atomic_units-lossless_example =
    atomic_units-lossless 12 (codes "One duty. Two\n\nThree") (omega arith)

abbrev three_units : List Text
three_units = codes "One duty." ∷ codes "Two duties!" ∷ codes "Three" ∷ []

pack-covers_example : Every (λ u. StandsIn u (pack 12 6 three_units)) three_units
pack-covers_example = pack-covers 12 6 three_units (omega arith)

join-pack_example : join (newline ∷ []) (pack 12 0 three_units) ≡ join (newline ∷ []) three_units
join-pack_example = join-pack 12 three_units (omega arith)

overlap_tail-IsAligned_example :
    IsAligned (codes "protection des donnees") (overlap_tail (codes "protection des donnees") 11)
overlap_tail-IsAligned_example = overlap_tail-IsAligned (codes "protection des donnees") 11

-- a tail of nine characters would start with the half-word of `des`
half_word_dropped : overlap_tail (codes "protection des donnees") 9 ≡ codes "donnees"
unfolding overlap_tail strip is_space align
half_word_dropped = refl

whole_word_kept : overlap_tail (codes "protection des donnees") 11 ≡ codes "des donnees"
unfolding overlap_tail strip is_space align
whole_word_kept = refl

three_packed :
    pack 12 6 three_units ≡ codes "One duty." ∷ codes "duty.\nTwo duties!" ∷ codes "Three" ∷ []
unfolding pack pack_step overlap_tail strip is_space align
three_packed = refl

act_chunks :
    chunk_fragments act (codes "md") 12 0
    ≡ ok (
        record {
          chunk_index = 0;
          content = codes "Art. 1\nOne duty.";
          section = some (codes "Art. 1");
          page = none;
        }
        ∷ record {
          chunk_index = 1;
          content = codes "Art. 1\nTwo duties!";
          section = some (codes "Art. 1");
          page = none;
        }
        ∷ record {
          chunk_index = 2;
          content = codes "Art. 1\nThree";
          section = some (codes "Art. 1");
          page = none;
        }
        ∷ record { chunk_index = 3; content = codes "Four"; section = none; page = none }
        ∷ [])
unfolding chunk_fragments append_pieces pack pack_step overlap_tail strip is_space align same_text
    concat_each atomic_units paragraph_units sentence_units paragraphs sentences hard_cuts
act_chunks = refl
