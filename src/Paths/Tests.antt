-- ===== src/Paths/Tests.antt =====
-- Suffixes of file names.
use sovereign_rag.Base.{◌≡◌, refl, some, none, []}
use sovereign_rag.Text.{Text, codes, same_text}
use sovereign_rag.Paths.{suffix, content_type_of}

upper_suffix : content_type_of (suffix (codes "dir.d/Act.v2.PDF")) ≡ some (codes "pdf")
unfolding suffix content_type_of same_text
upper_suffix = refl

hidden_file : ◌≡◌ {A = Text} (suffix (codes ".txt")) []
unfolding suffix same_text
hidden_file = refl

other_suffix : content_type_of (suffix (codes "a.html")) ≡ none
unfolding suffix content_type_of same_text
other_suffix = refl
