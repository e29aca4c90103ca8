-- ===== src/Client/Write/Sent.antt =====
-- What a call of the client writes, and what it leaves behind.
use tmi_rs.Prelude.{
  ◌-◌, true, [], ◌++◌, Option, ◌≡◌, refl, sym, arith, append_assoc, length, length-append,
  drop-length-append,
}
use tmi_rs.Str.{Str, eq}
use tmi_rs.Client.Write.{
  crlf, ends_with, Call, body, Client, io_reply, send_raw, with_scratch, send,
}

ends_with-append : (s : Str) → ends_with crlf (s ++ crlf) ≡ true
unfolding ends_with eq
ends_with-append s =
    let at : length (s ++ crlf) - 2 ≡ length s = omega (arith, length-append s crlf) in
    rw (at, drop-length-append s crlf) refl

module _ {W E : Type 0} (write_all : W → Str → W × Option E) where
  -- A call passes the check of `RawMessage`, writes what was left in the scratch buffer and its
  -- message to the stream in one piece, gives the stream's error or none, and leaves the buffer
  -- empty, also where the write has failed.
  pub send-write_all :
      (client : Client W) (call : Call)
      → send write_all client call ≡ (
        record {
          writer = (write_all client.writer (client.scratch ++ (body call ++ crlf))).0;
          scratch = [];
        },
        io_reply write_all (write_all client.writer (client.scratch ++ (body call ++ crlf))).1,
      )
  unfolding send with_scratch send_raw
  send-write_all client call =
      rw
        (
          sym (append_assoc client.scratch (body call) crlf),
          ends_with-append (client.scratch ++ body call),
        )
        refl
