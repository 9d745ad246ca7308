-- ===== src/Prelude/Attempt.antt =====
-- Calls that may raise an exception, which is its text.
use knowledgebase.Prelude.Text.{Text}

pub data Fetched (A : Type 0) : Type 0 where
  got : A → Fetched A
  raised : Text → Fetched A

module _ {A B : Type 0} where
  abbrev pub and_then : Fetched A → (A → Fetched B) → Fetched B
  and_then (got a) f = f a
  and_then (raised e) f = raised e
