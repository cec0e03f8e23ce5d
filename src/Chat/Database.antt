-- ===== src/Chat/Database.antt =====
-- The two tables of the chat and its five statements
-- (the SQL of backend/src/sovereign_rag/chat/service.py).
use sovereign_rag.Base.{
  ℕ, Option, none, some, List, [], ◌∷◌, ◌==◌, if◌then◌else◌, take, select, map,
}
use sovereign_rag.Text.{Text}
use sovereign_rag.Llm.{ChatMessage, user, assistant}
use sovereign_rag.Store.{Uuid}
use sovereign_rag.Chat.Prompts.{SourceOut}

pub record Conversation : Type 0 where
  pub id : Uuid
  pub user_id : Text
  pub title : Text

-- the parameters of the assistant's insert
pub record AssistantRow (Score : Type 0) : Type 0 where
  pub id : Uuid
  pub conversation_id : Uuid
  pub request_id : Uuid
  pub content : Text
  pub sources : List (SourceOut Score)
  pub model : Text
  pub prompt_tokens : Option ℕ
  pub completion_tokens : Option ℕ
  pub retrieval_ms : Option ℕ
  pub generation_ms : Option ℕ
  pub error_code : Option Text

-- a row of `messages`: of the user, with its conversation, request and content, or the assistant's
pub data MessageRow (Score : Type 0) : Type 0 where
  user_row : Uuid → Uuid → Text → MessageRow Score
  assistant_row : AssistantRow Score → MessageRow Score

-- both tables, the newest row first
pub record Database (Score : Type 0) : Type 0 where
  pub conversations : List Conversation
  pub messages : List (MessageRow Score)

-- `_SELECT_CONVERSATION_OWNER`
unfoldable pub select_owner : Uuid → List Conversation → Option Text
select_owner id [] = none
select_owner id (c ∷ rest) = if c.id == id then some c.user_id else select_owner id rest

module _ {Score : Type 0} where
  abbrev pub conversation_of : MessageRow Score → Uuid
  conversation_of (user_row c r t) = c
  conversation_of (assistant_row row) = row.conversation_id

  abbrev pub message_of : MessageRow Score → ChatMessage
  message_of (user_row c r t) = record { role = user; content = t }
  message_of (assistant_row row) = record { role = assistant; content = row.content }

  -- `_INSERT_CONVERSATION`; the id is the database's
  unfoldable pub insert_conversation : Uuid → Text → Text → Database Score → Database Score
  insert_conversation new_id user_id title db = record db {
    conversations = record { id = new_id; user_id = user_id; title = title } ∷ db.conversations;
  }

  -- `_SELECT_HISTORY`: the newest first
  unfoldable pub select_history : Uuid → ℕ → Database Score → List ChatMessage
  select_history id limit db =
      map message_of (take limit (select (λ row. conversation_of row == id) db.messages))

  -- `_INSERT_USER_MESSAGE`, `_INSERT_ASSISTANT_MESSAGE`
  unfoldable pub insert_message : MessageRow Score → Database Score → Database Score
  insert_message row db = record db { messages = row ∷ db.messages }
