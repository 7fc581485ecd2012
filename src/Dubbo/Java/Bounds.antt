-- ===== src/Dubbo/Java/Bounds.antt =====
-- Where the readers of dubboport/java_deserializer.go end: in the bytes, and without running out of
-- rounds but for the nesting of values.
use tcp_port.Base.{arith, length, ℕ, ◌+◌, ◌≤◌}
use tcp_port.Base.Slice.{Bytes}
use tcp_port.Dubbo.Java.Class.{read_class_desc}
use tcp_port.Dubbo.Java.Content.{read_content}
use tcp_port.Dubbo.Java.Ends.{Runs-read_class_desc}
use tcp_port.Dubbo.Java.Nesting.{Runs-read_content}
use tcp_port.Dubbo.Java.Runs.{Ends}
use tcp_port.Dubbo.Java.State.{Deser}

-- From a position in the bytes the reading of a value, nested as it may be, never moves the
-- position back or out of the bytes, and a value takes one byte at least.
pub read_content-Ends :
    (bytes : Bytes) (n : ℕ) (s : Deser)
    → s.pos ≤ length bytes
    → Ends (Unit {0}) bytes s.pos (s.pos + 1) (read_content bytes n s)
read_content-Ends bytes n s h =
    (Runs-read_content {k = length bytes} n tt).run s (omega arith) (omega arith)

-- The reading of a class descriptor with all its super classes comes to an end, in the bytes, for
-- the rounds that it is given.
pub read_class_desc-Ends :
    (bytes : Bytes) (s : Deser)
    → s.pos ≤ length bytes
    → Ends ⊥ bytes s.pos (s.pos + 1) (read_class_desc bytes s)
read_class_desc-Ends bytes s h =
    (Runs-read_class_desc {k = length bytes}).run s (omega arith) (omega arith)
