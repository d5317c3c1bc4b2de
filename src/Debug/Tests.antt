-- ===== src/Debug/Tests.antt =====
-- The theorem on the debugger's spans at a small instance.
use cyder.Base.{◌≡◌, ◌&&◌, ◌||◌, List, [], ◌∷◌, arith, any, ltb, leb}
use cyder.Debug.{MemorySpan, record_write}
use cyder.Debug.Coverage.{is_written, any-record_write}

abbrev spans : List MemorySpan
spans =
    record { start = 0; end = 4; tag = []; writes = 0 }
    ∷ record { start = 2; end = 9; tag = 65 ∷ []; writes = 0 }
    ∷ record { start = 8; end = 10; tag = []; writes = 1 }
    ∷ []

any-record_write_example :
    any (is_written 5) (record_write 4 8 spans) ≡ any (is_written 5) spans || (leb 4 5 && ltb 5 8)
any-record_write_example =
    any-record_write 5 4 8 spans (omega arith) (omega arith, (omega arith, (omega arith, tt)))
