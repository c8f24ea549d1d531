-- ===== src/Journal/Batch.antt =====
-- JournalBatchMixin of operation_journal/journal_batch.py, with journal_batch_links.py: batches,
-- their operations and checkpoints. Each operation is one transaction; payloads come in as texts,
-- `fresh` is what uuid4().hex returns, and `now` is the instant of `_utcnow`. The record that an
-- operation returns is the row.
pub mod Create
pub mod Operations
pub mod Checkpoints
pub mod Transitions
unfoldable pub use Create.*
unfoldable pub use Operations.*
unfoldable pub use Checkpoints.*
unfoldable pub use Transitions.*
