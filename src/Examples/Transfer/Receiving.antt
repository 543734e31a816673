-- ===== src/Examples/Transfer/Receiving.antt =====
-- What the client of the file server reads and prints (examples/transfer_files/client/main.go).
use go_wirenet.Base.{
  ℕ, zero, suc, ◌+◌, ◌<◌, ◌≤◌, ◌≡◌, refl, sym, ap, ◌∙◌, none, Option, List, [], ◌∷◌, ◌++◌,
  append-nil, append_assoc, arith, Bytes, length, flatten, subst, length-append,
}
use go_wirenet.Go.{Error, Go, ok}
use go_wirenet.Io.{Writer, Delivers, IsWriter}
use go_wirenet.Stream.Conn.{Conn}
use go_wirenet.Stream.Defs.{Stream, buf_size}
use go_wirenet.Stream.Transfer.{write_to}
use go_wirenet.Stream.Chunks.{chunked, AreChunks}
use go_wirenet.Stream.Delivery.{IsReady, write_to-Moves}
use go_wirenet.Stream.Ready.{write_to-IsReady}
use go_wirenet.Stream.Buffering.{count-chunked}
use go_wirenet.Stream.Chunking.{sent-write}
use go_wirenet.Examples.Transfer.Server.{Ran, and_then}
use go_wirenet.Examples.Transfer.Client.{
  print_result, after_read_name, transferred, read_file, read_files,
}
use go_wirenet.Examples.Transfer.Naming.{padded, read_name_lem}
use go_wirenet.Examples.Transfer.Sending.{Carries}

module _ {S : Type 0} (c : Conn S) {pending printed : S → Bytes} (law : Delivers c.reader pending)
    (full : (x : S) (n : ℕ) → n ≤ 32 → n ≤ length (pending x) → length (c.reader.read x n).0 ≡ n)
    (reads_apart : (x : S) (n : ℕ) → printed (c.reader.read x n).2 ≡ printed x) where
  module _ (stdout : Writer S) (takes : IsWriter stdout printed)
      (fine : (x : S) (p : Bytes) → (stdout.write x p).1 ≡ none)
      (writes_apart : (x : S) (p : Bytes) → pending (stdout.write x p).2 ≡ pending x) where
    -- What is printed for a file.
    abbrev pub printout : List (Bytes × Bytes) → Bytes
    printout [] = []
    printout ((name, body) ∷ files) =
        body ++ (transferred c stdout (padded name) none ++ printout files)

    -- The end of reading files from `x` on: they are printed, and `more` is left to come.
    abbrev pub Receives : S → List (Bytes × Bytes) → Bytes → Ran S → Type 0
    Receives x files more g =
        (s' : Stream) × (x' : S) × (g ≡ (ok tt, s', x'))
        × IsReady buf_size s'
        × (printed x' ≡ printed x ++ printout files)
        × (pending x' ≡ more)

    sent-print : (x : S) (p : Bytes) → printed (stdout.write x p).2 ≡ printed x ++ p
    sent-print x p = sent-write stdout takes fine x p

    -- The file's body and the line behind it.
    read_body :
        (name : Bytes) (cs : List Bytes) (fuel : ℕ) (rest : Bytes) (s : Stream) (x : S)
        → AreChunks buf_size cs
        → IsReady buf_size s
        → length (pending x) + buf_size + 2 < fuel
        → pending x ≡ chunked cs ++ rest
        → Receives x
            ((name, flatten cs) ∷ [])
            rest
            (print_result c stdout (padded name) (write_to c stdout fuel s x))
    read_body name cs fuel rest s x are ready h p =
        let (s', x', ran, got, left) =
          write_to-Moves c stdout law takes fine reads_apart writes_apart cs fuel rest s x are
            ready.is_open ready.header ready.room
            (omega (arith, count-chunked cs, ap length p, length-append (chunked cs) rest)) p in
        let still =
          write_to-IsReady c stdout buf_size (record { within = law.within }) fuel s x refl ready in
        let line : Bytes = transferred c stdout (padded name) none in
        (
          s',
          (stdout.write x' line).2,
          ap (print_result c stdout (padded name)) ran,
          subst (λ (g : Go (ℕ × Option Error) × Stream × S). IsReady buf_size g.1) ran still,
          sent-print x' line
              ∙ ap (λ t. t ++ line) got
              ∙ append_assoc (printed x) (flatten cs) line
              ∙ ap (λ t. printed x ++ (flatten cs ++ t)) (sym (append-nil line)),
          writes_apart x' line ∙ left,
        )

    read_file-Receives :
        (name body out rest : Bytes) (files : List (Bytes × Bytes)) (fuel : ℕ) (s : Stream) (x : S)
        → AreChunks 32 (name ∷ [])
        → IsReady buf_size s
        → length (pending x) + buf_size + 2 < fuel
        → Carries ((name, body) ∷ files) out
        → pending x ≡ out ++ rest
        → (more : Bytes) × Carries files more
          × (length more ≤ length out)
          × Receives x ((name, body) ∷ []) (more ++ rest) (read_file c stdout fuel s x)
    unfolding read_file
    read_file-Receives name body out rest files zero s x are ready h carries p =
        absurd (omega arith)
    read_file-Receives name body out rest files (suc zero) s x are ready h carries p =
        absurd (omega arith)
    read_file-Receives name body out rest files (suc (suc fuel)) s x are ready h
          (cs, more, are', flat, carries, whole) p =
        let behind : Bytes = chunked cs ++ (more ++ rest) in
        let come : pending x ≡ chunked (name ∷ []) ++ behind =
          p
          ∙ ap (λ t. t ++ rest) whole
          ∙ append_assoc (chunked (name ∷ [])) (chunked cs ++ more) rest
          ∙ ap (◌++◌ (chunked (name ∷ []))) (append_assoc (chunked cs) more rest) in
        let (s1, x1, named, ready1, same, left) =
          read_name_lem c law full reads_apart name behind fuel s x are ready (omega arith) come in
        let fewer : length (pending x1) ≤ length (pending x) =
          omega
            (arith, ap length left, ap length come, length-append (chunked (name ∷ [])) behind) in
        let (s', x', ran, still, got, left') =
          read_body name cs (suc (suc fuel)) (more ++ rest) s1 x1 are' ready1 (omega arith) left in
        (
          more,
          carries,
          omega (
            arith,
            ap length whole,
            length-append (chunked (name ∷ [])) (chunked cs ++ more),
            length-append (chunked cs) more,
          ),
          (
            s',
            x',
            ap (after_read_name c stdout (suc (suc fuel))) named ∙ ran,
            still,
            got
                ∙ ap (λ t. t ++ printout ((name, flatten cs) ∷ [])) same
                ∙ ap (λ b. printed x ++ printout ((name, b) ∷ [])) flat,
            left',
          ),
        )

    joined : (b line more : Bytes) → (b ++ (line ++ [])) ++ more ≡ b ++ (line ++ more)
    joined b line more =
        append_assoc b (line ++ []) more ∙ ap (λ t. b ++ (t ++ more)) (append-nil line)

    -- Two files that have arrived.
    pub read_files-Receives :
        (name name' body body' out rest : Bytes) (fuel : ℕ) (s : Stream) (x : S)
        → AreChunks 32 (name ∷ name' ∷ [])
        → IsReady buf_size s
        → length (pending x) + buf_size + 2 < fuel
        → Carries ((name, body) ∷ (name', body') ∷ []) out
        → pending x ≡ out ++ rest
        → Receives x ((name, body) ∷ (name', body') ∷ []) rest (read_files c stdout fuel s x)
    unfolding read_files
    read_files-Receives name name' body body' out rest fuel s x are ready h carries p =
        let (more, carries', fewer, (s1, x1, ran1, ready1, got1, left1)) =
          read_file-Receives name body out rest ((name', body') ∷ []) fuel s x (are.0, are.1, tt)
            ready h carries p in
        let (none_left, nothing, _, (s2, x2, ran2, ready2, got2, left2)) =
          read_file-Receives name' body' more rest [] fuel s1 x1 (are.2.0, are.2.1, tt) ready1
            (omega (
              arith,
              ap length left1,
              ap length p,
              length-append more rest,
              length-append out rest,
            ))
            carries' left1 in
        (
          s2,
          x2,
          ap (and_then (read_file c stdout fuel)) ran1 ∙ ran2,
          ready2,
          got2
              ∙ ap (λ t. t ++ printout ((name', body') ∷ [])) got1
              ∙ append_assoc (printed x) (printout ((name, body) ∷ []))
                  (printout ((name', body') ∷ []))
              ∙ ap (◌++◌ (printed x)) (
                  joined body (transferred c stdout (padded name) none)
                    (printout ((name', body') ∷ []))),
          left2 ∙ ap (λ t. t ++ rest) nothing,
        )
