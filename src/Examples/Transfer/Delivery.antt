-- ===== src/Examples/Transfer/Delivery.antt =====
-- Two files, from the server's disk to the client's standard output (examples/transfer_files).
use go_wirenet.Base.{
  ℕ, ◌+◌, ◌<◌, ◌≤◌, ◌≡◌, ap, refl, ◌∙◌, some, none, Option, [], ◌∷◌, ◌++◌, Bytes, length, All,
  subst, sym,
}
use go_wirenet.Go.{Go, ok}
use go_wirenet.Base.Assoc.{Assoc}
use go_wirenet.Io.{Reader, Writer, Delivers, IsWriter}
use go_wirenet.Stream.Conn.{Conn}
use go_wirenet.Stream.Defs.{Stream, buf_size}
use go_wirenet.Stream.Chunks.{AreChunks}
use go_wirenet.Stream.Delivery.{IsReady}
use go_wirenet.Examples.Transfer.Server.{send_files}
use go_wirenet.Examples.Transfer.Client.{read_files}
use go_wirenet.Examples.Transfer.Sending.{Disk, Carries, found, send_files-Sends}
use go_wirenet.Examples.Transfer.Receiving.{Receives, read_files-Receives}

found_two :
    (path : Bytes → Bytes) (body : Bytes → Option Bytes) (n1 n2 p1 p2 b1 b2 : Bytes)
    → body (path n1) ≡ some b1
    → body (path n2) ≡ some b2
    → found path body ((n1, p1) ∷ (n2, p2) ∷ []) ≡ (n1, b1) ∷ (n2, b2) ∷ []
found_two path body n1 n2 p1 p2 b1 b2 h1 h2 = rw (h1, h2, found) refl

module _ {S : Type 0} (c : Conn S) (path : Bytes → Bytes)
    (open_file : Bytes → S → Go (Reader S) × S) {sent : S → Bytes} (takes : IsWriter c.writer sent)
    (fine : (x : S) (p : Bytes) → (c.writer.write x p).1 ≡ none) (body : Bytes → Option Bytes)
    (disk : Disk c sent open_file body) where
  module _ {T : Type 0} (d : Conn T) {arrived printed : T → Bytes} (law : Delivers d.reader arrived)
      (full : (y : T) (n : ℕ) → n ≤ 32 → n ≤ length (arrived y) → length (d.reader.read y n).0 ≡ n)
      (reads_apart : (y : T) (n : ℕ) → printed (d.reader.read y n).2 ≡ printed y)
      (stdout : Writer T) (takes' : IsWriter stdout printed)
      (fine' : (y : T) (p : Bytes) → (stdout.write y p).1 ≡ none)
      (writes_apart : (y : T) (p : Bytes) → arrived (stdout.write y p).2 ≡ arrived y) where
    -- The server's handler sends two files that are there, over a connection that takes every write;
    -- once its bytes have arrived, the two calls of readFile print to the client's standard output
    -- each file's contents and a line with its name, padded to 32 bytes with zeros, in the order in
    -- which they were sent, and leave what follows. The names have 1 to 32 bytes, and a read of at
    -- most 32 bytes that have arrived is whole.
    pub read_files-send_files :
        (n1 n2 p1 p2 b1 b2 rest : Bytes) (fuel fuel' : ℕ) (s s' : Stream) (x : S) (y : T)
        → AreChunks 32 (n1 ∷ n2 ∷ [])
        → body (path n1) ≡ some b1
        → body (path n2) ≡ some b2
        → length b1 < fuel
        → length b2 < fuel
        → length (arrived y) + buf_size + 2 < fuel'
        → IsReady buf_size s
        → IsReady buf_size s'
        → ((out : Bytes)
            → sent (send_files c path open_file fuel ((n1, p1) ∷ (n2, p2) ∷ []) s x).2
              ≡ sent x ++ out
            → arrived y ≡ out ++ rest)
        → ((send_files c path open_file fuel ((n1, p1) ∷ (n2, p2) ∷ []) s x).0 ≡ ok tt)
          × Receives d law full reads_apart stdout takes' fine' writes_apart y
              ((n1, b1) ∷ (n2, b2) ∷ [])
              rest
              (read_files d stdout fuel' s' y)
    read_files-send_files n1 n2 p1 p2 b1 b2 rest fuel fuel' s s' x y are h1 h2 f1 f2 h ready ready'
          carried =
        let fs : Assoc Bytes = (n1, p1) ∷ (n2, p2) ∷ [] in
        let two = found_two path body n1 n2 p1 p2 b1 b2 h1 h2 in
        let (out, carries, (s1, x1, ran, _, got)) =
          send_files-Sends c path open_file fuel takes fine body disk fs s x are ready
            (subst (All (λ (f : Bytes × Bytes). length f.1 < fuel)) (sym two) (f1, (f2, tt))) in
        (
          ap (λ g. g.0) ran,
          read_files-Receives d law full reads_apart stdout takes' fine' writes_apart n1 n2 b1 b2
              out rest fuel' s' y are ready' h (subst (λ fs'. Carries fs' out) two carries)
              (carried out (ap (λ g. sent g.2) ran ∙ got)),
        )
