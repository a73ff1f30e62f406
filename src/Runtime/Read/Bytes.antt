-- ===== src/Runtime/Read/Bytes.antt =====
-- runtime/read.c: what `__get_text` gives of a file that is read through its buffer, against the
-- bytes that are left.
use lacsap.Prelude.{
  ℕ, suc, ◌+◌, ◌-◌, ◌<◌, ◌≤◌, Bool, true, false, not, List, [], ◌∷◌, ◌++◌, ◌≡◌, refl, sym, ap, ap₂,
  ◌∙◌, if◌then◌else◌, ◌==◌, length, get_or, Bool-cases, inl, inr, arith,
}
use lacsap.Prelude.Int.{ℤ, eq_ℤ}
use lacsap.Outcome.{Outcome, done}
use lacsap.Runtime.Arrays.{take, drop}
use lacsap.Runtime.Read.{
  Stdio, TextFile, eof, signed_char, byte_of, filled, fill_buffer, read_chunk_text, get_text,
}
use lacsap.Runtime.Read.Buffer.{
  ReadsInOrder, IsBuffered, pending, byte_of-signed_char, eof-signed_char, eq-true, eq-false,
  ltb-true, take-drop-next, drop-first, front, take-length-++, length-over,
}

module _ {Stream : Type 0} (io : Stdio Stream) (contents : Stream → List ℕ) where
  -- What is due when these bytes are left: the first, unless it is taken for `EOF`, with the others
  -- left, or the end.
  pub data Next : List ℕ → Outcome (Bool × TextFile Stream) → Type 0 where
    at_end :
        (f : TextFile Stream)
        → IsBuffered f
        → pending contents f ≡ []
        → f.read_ahead ≡ false
        → Next [] (done (false, f))
    next_byte :
        (b : ℕ) (rest : List ℕ) (f : TextFile Stream)
        → IsBuffered f
        → pending contents f ≡ rest
        → get_or f.buffer 0 0 ≡ b
        → f.read_ahead ≡ not (b == 255)
        → Next (b ∷ rest) (done (not (b == 255), f))

  -- What `__get_text` gives of a byte, from whether it is taken for `EOF`
  got : Bool → List ℕ → TextFile Stream → Outcome (Bool × TextFile Stream)
  got ended buffer f =
      if ended
      then done (false, record f { buffer = buffer; read_ahead = false })
      else done (true, record f { buffer = buffer })

  get_text-got :
      (f f₁ : TextFile Stream) (c : ℤ) (x : ℕ) (bs : List ℕ)
      → read_chunk_text io f ≡ done (c, f₁)
      → f₁.buffer ≡ x ∷ bs
      → get_text io f ≡ got (eq_ℤ c eof) (byte_of c ∷ bs) f₁
  unfolding get_text got
  get_text-got f f₁ c x bs e h = simp (e, h) refl

  -- The byte written to the front leaves the rest of the buffer.
  pending-front :
      (f : TextFile Stream) (x y : ℕ) (bs : List ℕ) (ahead : Bool)
      → f.buffer ≡ x ∷ bs
      → 0 < f.read_pos
      → pending contents (record f { buffer = y ∷ bs; read_ahead = ahead }) ≡ pending contents f
  pending-front f x y bs ahead e h = rw (e, drop-first f.read_pos x y bs h) refl

  IsBuffered-front :
      (f : TextFile Stream) (x y : ℕ) (bs : List ℕ) (ahead : Bool)
      → f.buffer ≡ x ∷ bs
      → IsBuffered f
      → IsBuffered (record f { buffer = y ∷ bs; read_ahead = ahead })
  IsBuffered-front f x y bs ahead e ok = record {
    batch = ok.batch;
    whole = ap length (sym e) ∙ ok.whole;
    room = ok.room;
    filled = ok.filled;
    reached = ok.reached;
    started = ok.started;
  }

  got-Next :
      (b x : ℕ) (rest bs : List ℕ) (f : TextFile Stream) (test : Bool)
      → (b == 255) ≡ test
      → IsBuffered f
      → f.buffer ≡ x ∷ bs
      → 0 < f.read_pos
      → pending contents f ≡ rest
      → f.read_ahead ≡ true
      → Next (b ∷ rest) (got test (b ∷ bs) f)
  unfolding got
  got-Next b x rest bs f true t ok e later left ahead = rw t at (
      next_byte b rest (record f { buffer = b ∷ bs; read_ahead = false })
        (IsBuffered-front f x b bs false e ok) (pending-front f x b bs false e later ∙ left) refl
        (ap not (sym t)))
  got-Next b x rest bs f false t ok e later left ahead = rw t at (
      next_byte b rest (record f { buffer = b ∷ bs }) (IsBuffered-front f x b bs f.read_ahead e ok)
        (pending-front f x b bs f.read_ahead e later ∙ left) refl (ahead ∙ ap not (sym t)))

  -- A chunk that gives a byte
  chunk-Next :
      (b : ℕ) (rest : List ℕ) (f f₁ : TextFile Stream)
      → b < 256
      → read_chunk_text io f ≡ done (signed_char b, f₁)
      → IsBuffered f₁
      → 0 < f₁.read_pos
      → pending contents f₁ ≡ rest
      → f₁.read_ahead ≡ true
      → Next (b ∷ rest) (get_text io f)
  chunk-Next b rest f f₁ small e ok later left ahead =
      let (x, bs, h) = front f₁.buffer (rw ok.whole ok.room) in
      rw
        (
          get_text-got f f₁ (signed_char b) x bs e h,
          eof-signed_char b small,
          byte_of-signed_char b small,
        )
        (got-Next b x rest bs f₁ (b == 255) refl ok h later left ahead)

  buffered_chunk :
      (f : TextFile Stream)
      → IsBuffered f
      → f.read_pos < f.buffer_size
      → read_chunk_text io f
        ≡ done (
          signed_char (get_or f.buffer f.read_pos 0),
          record f { read_ahead = true; read_pos = f.read_pos + 1 },
        )
  unfolding read_chunk_text
  buffered_chunk f ok h =
      let inside : f.read_pos < length f.buffer = omega (arith, ok.whole, ok.filled) in
      simp (ok.batch, eq-false h, ltb-true inside) refl

  pending-buffered :
      (f : TextFile Stream)
      → IsBuffered f
      → f.read_pos < f.buffer_size
      → pending contents f
        ≡ get_or f.buffer f.read_pos 0
          ∷ pending contents (record f { read_ahead = true; read_pos = f.read_pos + 1 })
  pending-buffered f ok h =
      let k = f.buffer_size - (f.read_pos + 1) in
      let e : f.buffer_size - f.read_pos ≡ suc k = omega arith in
      let inside : f.read_pos < length f.buffer = omega (arith, ok.whole, ok.filled) in
      let one : suc f.read_pos ≡ f.read_pos + 1 = omega arith in
      let next = rw one at (take-drop-next k f.read_pos f.buffer inside) in
      ap (λ t. t ++ contents f.stream) (ap (λ n. take n (drop f.read_pos f.buffer)) e ∙ next)

  IsBuffered-next :
      (f : TextFile Stream)
      → IsBuffered f
      → f.read_pos < f.buffer_size
      → IsBuffered (record f { read_ahead = true; read_pos = f.read_pos + 1 })
  IsBuffered-next f ok h = record {
    batch = ok.batch;
    whole = ok.whole;
    room = ok.room;
    filled = ok.filled;
    reached = omega arith;
    started = λ e. absurd (omega arith);
  }

  empty_chunk :
      (f : TextFile Stream)
      → IsBuffered f
      → f.read_pos ≡ f.buffer_size
      → read_chunk_text io f ≡ done (fill_buffer io f)
  unfolding read_chunk_text
  empty_chunk f ok h = simp (ok.batch, eq-true h) refl

  pending-empty :
      (f : TextFile Stream) → f.read_pos ≡ f.buffer_size → pending contents f ≡ contents f.stream
  pending-empty f h = let e : f.buffer_size - f.read_pos ≡ 0 = omega arith in simp e refl

  -- The buffer when a part of the file is read into it
  refilled : TextFile Stream → ℕ → List ℕ → Stream → TextFile Stream
  refilled f b rest stream = record f {
    stream = stream;
    buffer = (b ∷ rest) ++ drop (length (b ∷ rest)) f.buffer;
    buffer_size = suc (length rest);
    read_ahead = true;
    read_pos = 1;
  }

  IsBuffered-refilled :
      (f : TextFile Stream) (b : ℕ) (rest : List ℕ) (stream : Stream)
      → IsBuffered f
      → length (b ∷ rest) ≤ f.record_size
      → IsBuffered (refilled f b rest stream)
  unfolding refilled
  IsBuffered-refilled f b rest stream ok h = record {
    batch = ok.batch;
    whole = length-over (b ∷ rest) f.buffer (omega (arith, ok.whole)) ∙ ok.whole;
    room = ok.room;
    filled = h;
    reached = omega arith;
    started = λ e. absurd (omega arith);
  }

  full-Next :
      (f : TextFile Stream) (b : ℕ) (rest : List ℕ) (stream : Stream)
      → b < 256
      → IsBuffered f
      → f.read_pos ≡ f.buffer_size
      → length (b ∷ rest) ≤ f.record_size
      → (io.fread f.record_size f.stream).0 ≡ b ∷ rest
      → (io.fread f.record_size f.stream).1 ≡ stream
      → Next (b ∷ rest ++ contents stream) (get_text io f)
  unfolding refilled fill_buffer
  full-Next f b rest stream small ok h fits e e₁ =
      chunk-Next b (rest ++ contents stream) f (refilled f b rest stream) small
        (empty_chunk f ok h ∙ ap₂ (λ bytes s. done (filled bytes s f)) e e₁)
        (IsBuffered-refilled f b rest stream ok fits) (omega arith)
        (let n : suc (length rest) - 1 ≡ length rest = omega arith in
          rw n (
            ap (λ t. t ++ contents stream)
              (take-length-++ rest (drop (length (b ∷ rest)) f.buffer))))
        refl

  end-Next :
      (f : TextFile Stream) (stream : Stream)
      → IsBuffered f
      → f.read_pos ≡ f.buffer_size
      → contents stream ≡ []
      → (io.fread f.record_size f.stream).0 ≡ []
      → (io.fread f.record_size f.stream).1 ≡ stream
      → Next [] (get_text io f)
  unfolding fill_buffer got
  end-Next f stream ok h none_left e e₁ =
      let f₁ : TextFile Stream = record f { stream = stream } in
      let ok₁ : IsBuffered f₁ = record {
        batch = ok.batch;
        whole = ok.whole;
        room = ok.room;
        filled = ok.filled;
        reached = ok.reached;
        started = ok.started;
      } in
      let (x, bs, e₂) = front f.buffer (rw ok.whole ok.room) in
      rw
        (get_text-got f f₁ eof x bs
          (empty_chunk f ok h ∙ ap₂ (λ bytes s. done (filled bytes s f)) e e₁) e₂)
        (at_end (record f₁ { buffer = 255 ∷ bs; read_ahead = false })
          (IsBuffered-front f₁ x 255 bs false e₂ ok₁)
          (pending-empty (record f₁ { buffer = 255 ∷ bs; read_ahead = false }) h ∙ none_left) refl)

  -- The two ways on when the buffer is used up
  refill-Next :
      ReadsInOrder io contents
      → (f : TextFile Stream) (bytes : List ℕ) (stream : Stream)
      → get_or (contents f.stream) 0 0 < 256
      → IsBuffered f
      → f.read_pos ≡ f.buffer_size
      → (io.fread f.record_size f.stream).0 ≡ bytes
      → (io.fread f.record_size f.stream).1 ≡ stream
      → Next (contents f.stream) (get_text io f)
  refill-Next laws f [] stream small ok h e e₁ =
      let none_now = laws.none_at_end f.record_size f.stream ok.room e in
      let none_left : contents stream ≡ [] =
        sym (rw (e, e₁) at (laws.in_order f.record_size f.stream)) ∙ none_now in
      rw none_now (end-Next f stream ok h none_left e e₁)
  refill-Next laws f (b ∷ rest) stream small ok h e e₁ =
      let all : contents f.stream ≡ b ∷ rest ++ contents stream =
        rw (e, e₁) at (laws.in_order f.record_size f.stream) in
      rw all (
        full-Next f b rest stream (rw all at small) ok h
          (rw e at (laws.at_most f.record_size f.stream)) e e₁)

  -- Of a file that is read through its buffer, `__get_text` gives the bytes of the file in order:
  -- when none is left it returns false, and otherwise the next byte stands at the front of the
  -- buffer, the others are left, and it returns true, except for the byte 255, which it takes for
  -- the end. The conditions are that the stream gives its contents in order, that the file is set
  -- up and not interactive, and that the next byte is below 256.
  pub get_text-Next :
      ReadsInOrder io contents
      → (f : TextFile Stream) → IsBuffered f
      → get_or (pending contents f) 0 0 < 256
      → Next (pending contents f) (get_text io f)
  get_text-Next laws f ok small = elim (Bool-cases (f.read_pos == f.buffer_size)) [
    | inl used ↦
        let h : f.read_pos ≡ f.buffer_size = ground arith in
        let e = pending-empty f h in
        rw e (
          refill-Next laws f (io.fread f.record_size f.stream).0 (io.fread f.record_size f.stream).1
            (rw e at small) ok h refl refl)
    | inr more ↦
        let h : f.read_pos < f.buffer_size = ground (arith, ok.reached) in
        let e = pending-buffered f ok h in
        rw e (
          chunk-Next (get_or f.buffer f.read_pos 0)
            (pending contents (record f { read_ahead = true; read_pos = f.read_pos + 1 })) f
            (record f { read_ahead = true; read_pos = f.read_pos + 1 }) (rw e at small)
            (buffered_chunk f ok h) (IsBuffered-next f ok h) (omega arith) refl refl)
  ]
