-- ===== src/Framing/Tests.antt =====
-- adapter/stdio_framing.c: a message that comes in two reads.
use displayxr_mcp.Prelude.{refl, false, inl, [], ◌∷◌, ascii, arith}
use displayxr_mcp.Wire.{newline}
use displayxr_mcp.Framing.{ndjson, unknown, Reader, encode}
use displayxr_mcp.Framing.Ready.{IsReady, Returns}
use displayxr_mcp.Framing.Frames.{reader_next}
use displayxr_mcp.Framing.Frames.Next.{received, reader_next-encode}

-- The message `{}` and a byte of the next, of which the first byte comes alone, before the framing is
-- known.
abbrev fresh : Reader
fresh = record {
  buffer = [];
  capacity = 0;
  eof = false;
  framing = unknown;
  source = ascii "{" ∷ (b'}' ∷ newline ∷ b'[' ∷ []) ∷ [];
}

fresh-IsReady : IsReady fresh
fresh-IsReady = record {
  more = refl;
  fits = omega arith;
  sized = inl refl;
  chunks = (omega arith, (omega arith, tt));
}

reader_next-encode_example :
    Returns ndjson (received ndjson (ascii "{}")) (ascii "[") (reader_next [] fresh)
unfolding encode
reader_next-encode_example =
    reader_next-encode ndjson [] fresh (ascii "{}") (ascii "[") (λ h. cc) (_, refl, omega arith)
      fresh-IsReady (inl refl) refl
