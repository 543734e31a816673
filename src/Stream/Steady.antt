-- ===== src/Stream/Steady.antt =====
-- What every transfer and every Read leaves of a stream (stream.go).
use go_wirenet.Base.{ℕ, ◌≡◌, refl, length}
use go_wirenet.Io.{Reader, Writer, IsReader}
use go_wirenet.Stream.Conn.{Conn}
use go_wirenet.Stream.Defs.{Stream, buf_size}
use go_wirenet.Stream.Transfer.{read_from, write_to}
use go_wirenet.Stream.ReaderWriter.{StreamReader, reader_read}
use go_wirenet.Stream.Delivery.{IsReady}
use go_wirenet.Stream.Ready.{read_from-IsReady, write_to-IsReady}
use go_wirenet.Stream.Keeping.{header-Keeps, reader_read-Keeps}

-- A stream that is open, with a buffer of 1024 bytes and a header of 4, is that still after ReadFrom,
-- after WriteTo, and after a Read of its reader, whatever bytes and errors the connection, the
-- source and the writer give, if reads give no more bytes than there is room for; also where the
-- call fails, panics or has not come to its end yet.
pub transfers-IsReady :
    {S : Type 0} (c : Conn S) (src : Reader S) (dst : Writer S)
    → IsReader c.reader
    → IsReader src
    → (fuel want : ℕ) (s : Stream) (r : StreamReader) (x : S) → IsReady buf_size s
    → IsReady buf_size (read_from c src fuel s x).1
      × IsReady buf_size (write_to c dst fuel s x).1
      × (length (reader_read c fuel s want r x).2 ≡ 4)
transfers-IsReady c src dst law law' fuel want s r x ready = (
  read_from-IsReady c src buf_size law' fuel s x refl ready,
  write_to-IsReady c dst buf_size law fuel s x refl ready,
  reader_read-Keeps c (λ hdr _. length hdr ≡ 4) (header-Keeps c.reader law) fuel want s r x
      ready.header,
)
