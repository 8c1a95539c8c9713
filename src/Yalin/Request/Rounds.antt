-- ===== src/Yalin/Request/Rounds.antt =====
-- The rounds of the loop over the messages: as many as the buffer has bytes, and one more, are enough.
use hspp.Outcome.{Outcome}
use hspp.Memory.{Memory}
