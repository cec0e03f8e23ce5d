-- ===== src/Redaction/Client.antt =====
-- The client that masks what it sends (RedactingLLMClient,
-- backend/src/sovereign_rag/llm/redacting.py).
use sovereign_rag.Base.{List, map}
use sovereign_rag.Text.{Text}
use sovereign_rag.Llm.{ChatMessage, LlmClient}

unfoldable pub masked_messages : (Text → Text) → List ChatMessage → List ChatMessage
masked_messages redact = map (λ m. record { role = m.role; content = redact m.content })

unfoldable pub redacting : {W : Type 0} → LlmClient W → (Text → Text) → LlmClient W
unfolding masked_messages
redacting inner redact = record {
  stream_chat = λ messages. inner.stream_chat (masked_messages redact messages);
}
