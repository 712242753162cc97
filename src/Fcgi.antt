-- ===== src/Fcgi.antt =====
-- What a handler does to a FastCGI request, in order: `FCGX_PutStr` and `FCGX_FPrintF` write bytes,
-- and the last three calls end the answer.
use fcgijwtauth.Base.{Bytes}

pub data Event : Type 0 where
  put : Bytes → Event
  flush : Event
  close : Event
  finish : Event
