-- ===== src/Stream/Examples.antt =====
-- Concrete streams.
use alicia_server.Common.{◌≡◌, [], ◌∷◌, arith}
use alicia_server.Stream.{SinkStream, SourceStream, write_bytes}
use alicia_server.Stream.Strings.{read_chars}
use alicia_server.Stream.Refinement.{append, view, view_result, write_bytes-append}
use alicia_server.Stream.Lines.{line_at, until_nul, read_chars-until_nul}

-- Two bytes of five are taken.
abbrev sink : SinkStream
sink = record { storage = 1 ∷ 2 ∷ 0 ∷ 0 ∷ 0 ∷ []; cursor = 2 }

-- "AB" and its NUL.
abbrev letters : SourceStream
letters = record { storage = 7 ∷ 65 ∷ 66 ∷ 0 ∷ 9 ∷ []; cursor = 1 }

write_bytes-append_example :
    view_result (write_bytes (7 ∷ 8 ∷ []) sink) ≡ append (7 ∷ 8 ∷ []) (view sink)
write_bytes-append_example = write_bytes-append (7 ∷ 8 ∷ []) sink (omega arith)

read_chars-until_nul_example :
    read_chars 6 [] letters ≡ line_at letters (until_nul [] (65 ∷ 66 ∷ 0 ∷ 9 ∷ []) 0)
read_chars-until_nul_example = read_chars-until_nul 6 letters (omega arith) (omega arith)
