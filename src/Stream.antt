-- ===== src/Stream.antt =====
-- services/stream-processor: windowed statistics, the registry of series, and the handling of a
-- message.
pub mod Window
pub mod Registry
pub mod Process
pub mod Loop
pub mod Label
