-- ===== src/Workforce/Questions.antt =====
-- fieldpilot/workforce/questions.py: QuestionService, from a worker's question to its review.
pub mod Asking
pub mod Answering
pub mod Managing
unfoldable pub use Asking.*
unfoldable pub use Answering.*
unfoldable pub use Managing.*
