-- ===== src/MemStream/Tests.antt =====
-- A text written into a new stream.
use libpapago.Alloc.{Alloc}
use libpapago.MemStream.{MemStream}
